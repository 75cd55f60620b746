-- ===== src/Stack/NetIf/Printed.antt =====
-- What can be read back from the text of a NetIf.
use mathlib.Core.List.{append_cancel_left, tail-eq_of_cons-eq, head-eq_of_cons-eq}
use py_lwip.Prelude.{
  ℕ, ◌%◌, ◌/◌, ◌<◌, ◌≡◌, ◌≢◌, refl, sym, ap, ◌∙◌, [], ◌∷◌, ◌++◌, ◌⊎◌, inl, inr, arith,
}
use py_lwip.Prelude.Dict.{Str}
use py_lwip.Utility.Address.{dot, str, int_of, int_ip_from_string, int_ip_to_string}
use py_lwip.Utility.Address.Numerals.{AreDigits, str-AreDigits, int_of-str}
use py_lwip.Utility.Address.RoundTrip.{int_ip_from_string-int_ip_to_string}
use py_lwip.Stack.NetIf.{NetIf, set_names, flag_names}
use py_lwip.Stack.NetIf.Text.{
  after_names, join_commas, colon, space, less, flags_label, inet_label, netmask_label, gw_label,
  to_text,
}

abbrev pub Lacks : ℕ → Str → Type 0
Lacks c [] = Unit
Lacks c (x ∷ xs) = (x ≢ c) × Lacks c xs

-- The first place of a character splits a string in one way.
split_first :
    (c : ℕ) (xs ys r r' : Str)
    → Lacks c xs
    → Lacks c ys
    → xs ++ c ∷ r ≡ ys ++ c ∷ r'
    → (xs ≡ ys) × (r ≡ r')
split_first c [] [] r r' a b e = (refl, tail-eq_of_cons-eq e)
split_first c [] (y ∷ ys) r r' a (other, b) e = absurd (other (sym (head-eq_of_cons-eq e)))
split_first c (x ∷ xs) [] r r' (other, a) b e = absurd (other (head-eq_of_cons-eq e))
split_first c (x ∷ xs) (y ∷ ys) r r' (other, a) (other', b) e =
    let (same, rest) = split_first c xs ys r r' a b (tail-eq_of_cons-eq e) in
    (cc (head-eq_of_cons-eq e), rest)

Lacks-append : (c : ℕ) (xs ys : Str) → Lacks c xs → Lacks c ys → Lacks c (xs ++ ys)
Lacks-append c [] ys a b = b
Lacks-append c (x ∷ xs) ys (other, a) b = (other, Lacks-append c xs ys a b)

AreDigits-Lacks : (c : ℕ) (xs : Str) → (c < 48) ⊎ (57 < c) → AreDigits xs → Lacks c xs
AreDigits-Lacks c [] other all = tt
AreDigits-Lacks c (x ∷ xs) other (d, all) = (λ e. ground arith, AreDigits-Lacks c xs other all)

str-Lacks : (c n : ℕ) → (c < 48) ⊎ (57 < c) → Lacks c (str n)
str-Lacks c n other = AreDigits-Lacks c (str n) other (str-AreDigits n)

-- Numbers with dots between have no spaces.
address-Lacks : (ip : ℕ) → Lacks space (int_ip_to_string ip)
unfolding int_ip_to_string
address-Lacks ip =
    let part : (n : ℕ) → Lacks space (str n) = λ n. str-Lacks space n (inl (omega arith)) in
    let dotted : (n : ℕ) (rest : Str) → Lacks space rest → Lacks space (str n ++ dot ∷ rest) =
      λ n rest all. Lacks-append space (str n) (dot ∷ rest) (part n) (omega arith, all) in
    dotted (ip % 256) _
      (dotted (ip / 256 % 256) _ (dotted (ip / 65536 % 256) _ (part (ip / 16777216 % 256))))

str-injective : (a b : ℕ) → str a ≡ str b → a ≡ b
str-injective a b e = cc (int_of-str a, int_of-str b, ap int_of e)

address-injective :
    (a b : ℕ) → a < 4294967296 → b < 4294967296 → int_ip_to_string a ≡ int_ip_to_string b → a ≡ b
address-injective a b ha hb e = cc (
  int_ip_from_string-int_ip_to_string a ha,
  int_ip_from_string-int_ip_to_string b hb,
  ap int_ip_from_string e,
)

-- The three addresses fit in their fields, and the name has no colon.
pub record IsPrintable (n : NetIf) : Type 0 where
  pub ip_addr : n.ip_addr < 4294967296
  pub netmask : n.netmask < 4294967296
  pub gw : n.gw < 4294967296
  pub name : Lacks colon n.name

-- Two interfaces with the same text have the same name, flags and addresses: __str__ hides nothing
-- of what it prints.
pub to_text-injective :
    (m n : NetIf)
    → IsPrintable m
    → IsPrintable n
    → to_text m ≡ to_text n
    → (m.name ≡ n.name)
      × (m.flags ≡ n.flags)
      × (m.ip_addr ≡ n.ip_addr)
      × (m.netmask ≡ n.netmask)
      × (m.gw ≡ n.gw)
to_text-injective m n p q e =
    let (names, e₁) = split_first colon m.name n.name _ _ p.name q.name e in
    let (flag_texts, e₂) =
      split_first less (str m.flags) (str n.flags) _ _ (str-Lacks less m.flags (inr (omega arith)))
        (str-Lacks less n.flags (inr (omega arith))) (append_cancel_left flags_label _ _ e₁) in
    let flags = str-injective m.flags n.flags flag_texts in
    let e₃ =
      append_cancel_left (join_commas (set_names m.flags flag_names)) _ _
        (e₂ ∙ ap (λ f. join_commas (set_names f flag_names) ++ after_names n) (sym flags)) in
    let (ips, e₄) =
      split_first space (int_ip_to_string m.ip_addr) (int_ip_to_string n.ip_addr) _ _
        (address-Lacks m.ip_addr) (address-Lacks n.ip_addr)
        (append_cancel_left inet_label _ _ e₃) in
    let (masks, e₅) =
      split_first space (int_ip_to_string m.netmask) (int_ip_to_string n.netmask) _ _
        (address-Lacks m.netmask) (address-Lacks n.netmask)
        (append_cancel_left netmask_label _ _ e₄) in
    let gws = append_cancel_left gw_label _ _ e₅ in
    (
      names,
      flags,
      address-injective m.ip_addr n.ip_addr p.ip_addr q.ip_addr ips,
      address-injective m.netmask n.netmask p.netmask q.netmask masks,
      address-injective m.gw n.gw p.gw q.gw gws,
    )
