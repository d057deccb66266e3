-- ===== src/Irc/Ctcp.antt =====
-- pkg/irc/ctcp.go: `DecodeCTCP` and `EncodeCTCP`, and `ToCTCP` of pkg/irc/message.go.
use mathlib.Core.Option
use dispatch.Base.{
  ℕ, Bytes, Bool, false, ◌&&◌, [], ◌∷◌, ◌++◌, Option, none, some, ◌==◌, nat_eq, ltb, if◌then◌else◌,
  length, is_empty, split_n2, trim, trim_left, trim_right, Lacks, EndsWith, ◌≡◌, ◌≢◌, refl, sym, ap,
  ◌∙◌, arith, split_n2_at, append_assoc,
}
use dispatch.Irc.Message.{Message, last_param}
use dispatch.Irc.Message.Printer.{NotAt}

pub record Ctcp : Type 0 where
  pub command : Bytes
  pub params : Bytes

abbrev starts_at_one : Bytes → Bool
starts_at_one [] = false
starts_at_one (c ∷ s) = c == 0x01

-- `parts`, and the test that the first of them is not empty
abbrev ctcp_of : Bytes × Option Bytes → Option Ctcp
ctcp_of ([], params) = none
ctcp_of (c ∷ command, params) =
    some (record { command = c ∷ command; params = Option.get_or params [] })

unfoldable pub decode_ctcp : Bytes → Option Ctcp
decode_ctcp str =
    if ltb 1 (length str) && starts_at_one str
    then ctcp_of (split_n2 (trim str 0x01) b' ')
    else none

unfoldable pub encode_ctcp : Option Ctcp → Bytes
encode_ctcp none = []
encode_ctcp (some c) =
    if is_empty c.command then [] else 0x01 ∷ (c.command ++ (b' ' ∷ (c.params ++ 0x01 ∷ [])))

unfoldable pub to_ctcp : Message → Option Ctcp
unfolding last_param decode_ctcp
to_ctcp m = decode_ctcp (last_param m)

trim_right_concat : (s : Bytes) (b : ℕ) → trim_right (s ++ b ∷ []) b ≡ trim_right s b
unfolding trim_right
trim_right_concat [] b = ground arith
trim_right_concat (c ∷ s) b = ground (arith, trim_right_concat s b)

trim_right_id : (s : Bytes) (b : ℕ) → ¬ EndsWith b s → trim_right s b ≡ s
unfolding trim_right
trim_right_id [] b h = refl
trim_right_id (c ∷ []) b h = ground arith
trim_right_id (c ∷ d ∷ s) b h = ground (arith, trim_right_id (d ∷ s) b h)

EndsWith-behind :
    (b : ℕ) (s t : Bytes) (c : ℕ) → c ≢ b → ¬ EndsWith b t → ¬ EndsWith b (s ++ (c ∷ t))
EndsWith-behind b [] [] c ne h = ne
EndsWith-behind b [] (d ∷ t) c ne h = h
EndsWith-behind b (x ∷ []) t c ne h = EndsWith-behind b [] t c ne h
EndsWith-behind b (x ∷ y ∷ s) t c ne h = EndsWith-behind b (y ∷ s) t c ne h

trim_left_one : (c : ℕ) (s : Bytes) → c ≢ 0x01 → trim_left (0x01 ∷ c ∷ s) 0x01 ≡ c ∷ s
unfolding trim_left
trim_left_one c s h = ground arith

trim_ctcp :
    (command params : Bytes)
    → command ≢ []
    → NotAt 0x01 command
    → ¬ EndsWith 0x01 params
    → trim (0x01 ∷ (command ++ (b' ' ∷ (params ++ 0x01 ∷ [])))) 0x01 ≡ command ++ (b' ' ∷ params)
unfolding trim
trim_ctcp [] params ne n e = absurd (ne refl)
trim_ctcp (c ∷ command) params ne n e =
    ap (λ t. trim_right t 0x01) (trim_left_one c (command ++ (b' ' ∷ (params ++ 0x01 ∷ []))) n)
    ∙ ap (λ t. trim_right t 0x01) (sym (append_assoc (c ∷ command) (b' ' ∷ params) (0x01 ∷ [])))
    ∙ trim_right_concat ((c ∷ command) ++ (b' ' ∷ params)) 0x01
    ∙ trim_right_id _ 0x01 (EndsWith-behind 0x01 (c ∷ command) params b' ' (omega arith) e)

-- A CTCP message whose command is not empty, holds no blank and does not start with 0x01, and whose
-- parameters do not end with 0x01, is decoded from its encoding.
pub decode_ctcp-encode_ctcp :
    (c : Ctcp)
    → c.command ≢ []
    → NotAt 0x01 c.command
    → Lacks b' ' c.command
    → ¬ EndsWith 0x01 c.params
    → decode_ctcp (encode_ctcp (some c)) ≡ some c
unfolding decode_ctcp encode_ctcp
decode_ctcp-encode_ctcp c ne n l e = round c.command c.params ne n l e
  where
    round :
        (command params : Bytes)
        → command ≢ []
        → NotAt 0x01 command
        → Lacks b' ' command
        → ¬ EndsWith 0x01 params
        → decode_ctcp (encode_ctcp (some (record { command = command; params = params })))
          ≡ some (record { command = command; params = params })
    round [] params ne n l e = absurd (ne refl)
    round (x ∷ command) params ne n l e =
        ground
          (arith, trim_ctcp (x ∷ command) params ne n e, split_n2_at b' ' (x ∷ command) params l)
