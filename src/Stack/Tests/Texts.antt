-- ===== src/Stack/Tests/Texts.antt =====
-- The texts of two errors.
use py_lwip.Prelude.{◌≡◌, refl, none, some, [], ◌∷◌}
use py_lwip.Prelude.Int.{negsuc}
use py_lwip.Stack.Errors.{LwipError, get_code, mapping, error_text}
use py_lwip.Stack.Errors.Messages.{error_text-injective}

abbrev timeout : LwipError
timeout = record { code = negsuc 2 }

timeout_text : error_text timeout ≡ some (84 ∷ 105 ∷ 109 ∷ 101 ∷ 111 ∷ 117 ∷ 116 ∷ [])
unfolding mapping
timeout_text = refl

unknown_text : error_text (record { code = negsuc 16 }) ≡ none
unfolding mapping
unknown_text = refl

error_text-injective_example : get_code timeout ≡ get_code timeout
error_text-injective_example = error_text-injective timeout timeout refl refl
