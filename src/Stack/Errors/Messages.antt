-- ===== src/Stack/Errors/Messages.antt =====
-- Each error code of lwIP has a message of its own.
use py_lwip.Prelude.{
  ltb, Option-cases, ℕ, suc, ◌≡◌, ◌≢◌, refl, Bool, true, false, not, ◌&&◌, none, some, List, [],
  ◌∷◌, inl, inr, arith,
}
use py_lwip.Prelude.Dict.{Str, same_str, same_str_refl}
use py_lwip.Prelude.Int.{ℤ, pos, negsuc}
use py_lwip.Stack.Errors.{LwipError, mapping, message_of, message_at, error_text, get_code}

-- No entry of the table has the message, and no two entries have the same.
abbrev absent : Str → List (ℕ × Str) → Bool
absent s [] = true
absent s ((k, message) ∷ rest) = not (same_str s message) && absent s rest

abbrev distinct : List (ℕ × Str) → Bool
distinct [] = true
distinct ((k, message) ∷ rest) = absent message rest && distinct rest

mapping-distinct : distinct mapping ≡ true
unfolding mapping
mapping-distinct = refl

absent-ne :
    (s : Str) (table : List (ℕ × Str)) (n : ℕ) → absent s table ≡ true → message_of table n ≢ some s
absent-ne s [] n gone e = cc
absent-ne s ((k, message) ∷ rest) n gone e =
    let same = same_str_refl s in let later = absent-ne s rest n in grind arith

message_of-injective :
    (table : List (ℕ × Str)) (n m : ℕ) (s : Str)
    → distinct table ≡ true
    → message_of table n ≡ some s
    → message_of table m ≡ some s
    → n ≡ m
message_of-injective [] n m s apart at_n at_m = cc
message_of-injective ((k, message) ∷ rest) n m s apart at_n at_m =
    let later = message_of-injective rest n m s in let only_here = absent-ne s rest in grind arith

mapping-total : (n : ℕ) → ltb n 16 ≡ true → message_of mapping (suc n) ≢ none
unfolding mapping
mapping-total n inside = ground arith

-- The codes of lwIP's errors, -1 to -16.
abbrev pub is_lwip_code : ℤ → Bool
is_lwip_code (pos n) = false
is_lwip_code (negsuc n) = ltb n 16

message_at-injective : (c d : ℤ) → is_lwip_code c ≡ true → message_at c ≡ message_at d → c ≡ d
message_at-injective (pos n) d inside same = cc
message_at-injective (negsuc n) (pos m) inside same = absurd (mapping-total n inside same)
message_at-injective (negsuc n) (negsuc m) inside same =
    elim (Option-cases (message_of mapping (suc n))) [
      | inl missing ↦ absurd (mapping-total n inside missing)
      | inr (s, found) ↦
          (let equal = message_of-injective mapping (suc n) (suc m) s mapping-distinct found in
            grind arith)
    ]

-- An error with the text of an error whose code is from -1 to -16 has the same code; the same holds
-- with no text at all, which these errors therefore never have.
pub error_text-injective :
    (d e : LwipError)
    → is_lwip_code (get_code d) ≡ true
    → error_text d ≡ error_text e
    → get_code d ≡ get_code e
error_text-injective d e inside same = message_at-injective d.code e.code inside same
