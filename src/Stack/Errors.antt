-- ===== src/Stack/Errors.antt =====
-- The exceptions of lwip_py/stack/exceptions.py that show an error code of lwIP.
pub mod Messages
use py_lwip.Prelude.{ℕ, suc, Option, none, some, List, [], ◌∷◌, ◌==◌, if◌then◌else◌}
use py_lwip.Prelude.Dict.{Str}
use py_lwip.Prelude.Int.{ℤ, pos, negsuc}

-- LwipError, with its code.
pub record LwipError : Type 0 where
  pub code : ℤ

abbrev pub get_code : LwipError → ℤ
get_code e = e.code

-- The messages of the codes -1 to -16, by the code without its sign: 'Out of memory',
-- 'Buffer error', 'Timeout', 'Routing problem', 'Operation in progress', 'Illegal value',
-- 'Operation would block', 'Address in use', 'Already connecting', 'Connection already established',
-- 'Not connected', 'Low level interface error', 'Connection aborted', 'Connection reset',
-- 'Connection closed', 'Illegal argument'.
unfoldable pub mapping : List (ℕ × Str)
mapping =
    (1, 79 ∷ 117 ∷ 116 ∷ 32 ∷ 111 ∷ 102 ∷ 32 ∷ 109 ∷ 101 ∷ 109 ∷ 111 ∷ 114 ∷ 121 ∷ [])
    ∷ (2, 66 ∷ 117 ∷ 102 ∷ 102 ∷ 101 ∷ 114 ∷ 32 ∷ 101 ∷ 114 ∷ 114 ∷ 111 ∷ 114 ∷ [])
    ∷ (3, 84 ∷ 105 ∷ 109 ∷ 101 ∷ 111 ∷ 117 ∷ 116 ∷ [])
    ∷ (4, 82 ∷ 111 ∷ 117 ∷ 116 ∷ 105 ∷ 110 ∷ 103 ∷ 32 ∷ 112 ∷ 114 ∷ 111 ∷ 98 ∷ 108 ∷ 101 ∷ 109 ∷ [])
    ∷ (
      5,
      79 ∷ 112 ∷ 101 ∷ 114 ∷ 97 ∷ 116 ∷ 105 ∷ 111 ∷ 110 ∷ 32 ∷ 105 ∷ 110 ∷ 32 ∷ 112 ∷ 114 ∷ 111
          ∷ 103 ∷ 114 ∷ 101 ∷ 115 ∷ 115 ∷ [],
    )
    ∷ (6, 73 ∷ 108 ∷ 108 ∷ 101 ∷ 103 ∷ 97 ∷ 108 ∷ 32 ∷ 118 ∷ 97 ∷ 108 ∷ 117 ∷ 101 ∷ [])
    ∷ (
      7,
      79 ∷ 112 ∷ 101 ∷ 114 ∷ 97 ∷ 116 ∷ 105 ∷ 111 ∷ 110 ∷ 32 ∷ 119 ∷ 111 ∷ 117 ∷ 108 ∷ 100 ∷ 32 ∷ 98
          ∷ 108 ∷ 111 ∷ 99 ∷ 107 ∷ [],
    )
    ∷ (8, 65 ∷ 100 ∷ 100 ∷ 114 ∷ 101 ∷ 115 ∷ 115 ∷ 32 ∷ 105 ∷ 110 ∷ 32 ∷ 117 ∷ 115 ∷ 101 ∷ [])
    ∷ (
      9,
      65 ∷ 108 ∷ 114 ∷ 101 ∷ 97 ∷ 100 ∷ 121 ∷ 32 ∷ 99 ∷ 111 ∷ 110 ∷ 110 ∷ 101 ∷ 99 ∷ 116 ∷ 105 ∷ 110
          ∷ 103 ∷ [],
    )
    ∷ (
      10,
      67 ∷ 111 ∷ 110 ∷ 110 ∷ 101 ∷ 99 ∷ 116 ∷ 105 ∷ 111 ∷ 110 ∷ 32 ∷ 97 ∷ 108 ∷ 114 ∷ 101 ∷ 97 ∷ 100
          ∷ 121 ∷ 32 ∷ 101 ∷ 115 ∷ 116 ∷ 97 ∷ 98 ∷ 108 ∷ 105 ∷ 115 ∷ 104 ∷ 101 ∷ 100 ∷ [],
    )
    ∷ (11, 78 ∷ 111 ∷ 116 ∷ 32 ∷ 99 ∷ 111 ∷ 110 ∷ 110 ∷ 101 ∷ 99 ∷ 116 ∷ 101 ∷ 100 ∷ [])
    ∷ (
      12,
      76 ∷ 111 ∷ 119 ∷ 32 ∷ 108 ∷ 101 ∷ 118 ∷ 101 ∷ 108 ∷ 32 ∷ 105 ∷ 110 ∷ 116 ∷ 101 ∷ 114 ∷ 102
          ∷ 97 ∷ 99 ∷ 101 ∷ 32 ∷ 101 ∷ 114 ∷ 114 ∷ 111 ∷ 114 ∷ [],
    )
    ∷ (
      13,
      67 ∷ 111 ∷ 110 ∷ 110 ∷ 101 ∷ 99 ∷ 116 ∷ 105 ∷ 111 ∷ 110 ∷ 32 ∷ 97 ∷ 98 ∷ 111 ∷ 114 ∷ 116 ∷ 101
          ∷ 100 ∷ [],
    )
    ∷ (
      14,
      67 ∷ 111 ∷ 110 ∷ 110 ∷ 101 ∷ 99 ∷ 116 ∷ 105 ∷ 111 ∷ 110 ∷ 32 ∷ 114 ∷ 101 ∷ 115 ∷ 101 ∷ 116
          ∷ [],
    )
    ∷ (
      15,
      67 ∷ 111 ∷ 110 ∷ 110 ∷ 101 ∷ 99 ∷ 116 ∷ 105 ∷ 111 ∷ 110 ∷ 32 ∷ 99 ∷ 108 ∷ 111 ∷ 115 ∷ 101
          ∷ 100 ∷ [],
    )
    ∷ (
      16,
      73 ∷ 108 ∷ 108 ∷ 101 ∷ 103 ∷ 97 ∷ 108 ∷ 32 ∷ 97 ∷ 114 ∷ 103 ∷ 117 ∷ 109 ∷ 101 ∷ 110 ∷ 116
          ∷ [],
    )
    ∷ []

abbrev pub message_of : List (ℕ × Str) → ℕ → Option Str
message_of [] n = none
message_of ((k, message) ∷ rest) n =
    let later = message_of rest n in if k == n then some message else later

abbrev pub message_at : ℤ → Option Str
message_at (pos n) = none
message_at (negsuc n) = message_of mapping (suc n)

-- `__str__`; `none` is KeyError.
abbrev pub error_text : LwipError → Option Str
error_text e = message_at e.code
