-- ===== src/Irc/Features/Laws.antt =====
-- What announcing and withdrawing a feature changes, and where `Parse` panics.
use Prim.Native.Nat.{◌<◌}
use native.Mathlib.Numerals.{add-one}
use mathlib.Core.Logic.{◌↔◌}
use dispatch.Base.{
  ℕ, Bytes, List, [], ◌∷◌, ◌++◌, none, some, ◌==◌, bytes_eq, if◌then◌else◌, ok, panic, length,
  lookup, lookup-insert, lookup-delete, ◌≡◌, ◌≢◌, refl, ap, arith, Lacks, split_n2_at,
  split_n2-none, take, length-append,
}
use dispatch.Irc.Message.{split_param}
use dispatch.Irc.Features.{
  Features, feature_of, apply_feature, apply_features, middle_params, parse_features,
}

-- `Parse` panics on exactly the messages with fewer than two parameters.
pub parse_features-panic_iff :
    (f : Features) (params : List Bytes) → (parse_features f params ≡ panic) ↔ (length params < 2)
unfolding parse_features middle_params
parse_features-panic_iff f [] = (λ e. omega arith, λ h. refl)
parse_features-panic_iff f (p ∷ []) = (λ e. omega arith, λ h. refl)
parse_features-panic_iff f (p ∷ q ∷ ps) = (λ e. cc, λ h. absurd (omega arith))

-- One announcement: a token "KEY=value".
announce :
    (f : Features) (c : ℕ) (key val k : Bytes)
    → c ≢ b'-'
    → Lacks b'=' (c ∷ key)
    → lookup k (apply_feature f (split_param ((c ∷ key) ++ (b'=' ∷ val))))
      ≡ (if (c ∷ key) == k then some (feature_of (c ∷ key) val) else lookup k f)
unfolding split_param apply_feature
announce f c key val k n l =
    rw (split_n2_at b'=' (c ∷ key) val l)
      (ground (arith, lookup-insert (c ∷ key) k (feature_of (c ∷ key) val) f))

take-concat : (ps : List Bytes) (p : Bytes) → take (length ps) (ps ++ p ∷ []) ≡ ps
take-concat [] p = refl
take-concat (x ∷ ps) p = ap (◌∷◌ x) (take-concat ps p)

middle_params-concat :
    (nick last : Bytes) (tokens : List Bytes)
    → middle_params (nick ∷ (tokens ++ last ∷ [])) ≡ ok tokens
unfolding middle_params
middle_params-concat nick last [] = refl
middle_params-concat nick last (t ∷ tokens) =
    rw (length-append tokens (last ∷ []), add-one) (ap ok (take-concat (t ∷ tokens) last))

apply_features-concat :
    (f : Features) (tokens : List Bytes) (t : Bytes)
    → apply_features f (tokens ++ t ∷ []) ≡ apply_feature (apply_features f tokens) (split_param t)
unfolding apply_features
apply_features-concat f [] t = refl
apply_features-concat f (x ∷ tokens) t =
    apply_features-concat (apply_feature f (split_param x)) tokens t

-- A withdrawal: a token "-KEY".
withdraw :
    (f : Features) (key k : Bytes)
    → Lacks b'=' key
    → lookup k (apply_feature f (split_param (b'-' ∷ key)))
      ≡ (if key == k then none else lookup k f)
unfolding split_param apply_feature
withdraw f key k l = rw (split_n2-none b'=' (b'-' ∷ key) (omega arith, l)) (lookup-delete key k f)

-- An RPL_ISUPPORT message: the first parameter and the last are not read, and the last token decides.
-- "KEY=value", for a key that is not empty, holds no '=' and does not start with '-', sets that feature
-- to the value as its transform reads it; "-KEY" removes it; every other feature is as the tokens
-- before left it.
pub parse_features_last_token :
    (f : Features) (nick last : Bytes) (tokens : List Bytes) (c : ℕ) (key val k : Bytes)
    → c ≢ b'-'
    → Lacks b'=' (c ∷ key)
    → (g h : Features) × (parse_features f
          (nick ∷ ((tokens ++ ((c ∷ key) ++ (b'=' ∷ val)) ∷ []) ++ last ∷ []))
        ≡ ok g)
      × (lookup k g ≡ (
          if (c ∷ key) == k
          then some (feature_of (c ∷ key) val)
          else lookup k (apply_features f tokens)))
      × (parse_features f (nick ∷ ((tokens ++ (b'-' ∷ c ∷ key) ∷ []) ++ last ∷ [])) ≡ ok h)
      × (lookup k h ≡ (if (c ∷ key) == k then none else lookup k (apply_features f tokens)))
unfolding parse_features
parse_features_last_token f nick last tokens c key val k n l = (
  apply_features f (tokens ++ ((c ∷ key) ++ (b'=' ∷ val)) ∷ []),
  apply_features f (tokens ++ (b'-' ∷ c ∷ key) ∷ []),
  rw (middle_params-concat nick last (tokens ++ ((c ∷ key) ++ (b'=' ∷ val)) ∷ [])),
  rw (apply_features-concat f tokens ((c ∷ key) ++ (b'=' ∷ val)))
      (announce (apply_features f tokens) c key val k n l),
  rw (middle_params-concat nick last (tokens ++ (b'-' ∷ c ∷ key) ∷ [])),
  rw (apply_features-concat f tokens (b'-' ∷ c ∷ key))
      (withdraw (apply_features f tokens) (c ∷ key) k l),
)
