-- ===== src/Irc/Message/Stages.antt =====
-- Each stage of `ParseMessage` reads the piece that was printed for it.
use dispatch.Base.{
  ℕ, Bytes, [], ◌∷◌, ◌++◌, ◌≡◌, ◌≢◌, refl, ap, ◌∙◌, arith, Option, none, some, List, Lacks, All,
  All-append, IsWord, IsWordByte, join, codes, index, index_byte, index_byte_none, fields-join,
  length, take-append, drop-append_past, append-nil, bytes_eq, has_prefix,
}
use dispatch.Irc.Message.{parse_prefix, strip_prefix, parse_command, positive}
use dispatch.Irc.Message.Printer.{
  Source, anonymous, from_server, from_user, source_text, trailing_text, prefix_of, trailing_params,
  IsName, IsSource, NotAt,
}

-- A blank is followed by a byte that is not a colon.
abbrev Quiet : Bytes → Type 0
Quiet [] = Unit
Quiet (c ∷ []) = c ≢ b' '
Quiet (c ∷ d ∷ s) = (c ≡ b' ' → d ≢ b':') × Quiet (d ∷ s)

index_colon :
    (s t : Bytes) → Quiet s → index (s ++ (b' ' ∷ b':' ∷ t)) (codes " :") ≡ some (length s)
unfolding index has_prefix
index_colon [] t h = refl
index_colon (c ∷ []) t h = ground arith
index_colon (c ∷ d ∷ s) t h = ground (arith, index_colon (d ∷ s) t h.1, h.0)

index_colon_none : (s : Bytes) → Quiet s → index s (codes " :") ≡ none
unfolding index has_prefix
index_colon_none [] h = refl
index_colon_none (c ∷ []) h = ground arith
index_colon_none (c ∷ d ∷ s) h = ground (arith, index_colon_none (d ∷ s) h.1, h.0)

Quiet-word : (w : Bytes) → All IsWordByte w → Quiet w
Quiet-word [] h = tt
Quiet-word (c ∷ []) h = omega arith
Quiet-word (c ∷ d ∷ w) h = (λ e. absurd (omega arith), Quiet-word (d ∷ w) h.1)

Quiet-blank : (s : Bytes) → s ≢ [] → NotAt b':' s → Quiet s → Quiet (b' ' ∷ s)
Quiet-blank [] ne n q = absurd (ne refl)
Quiet-blank (c ∷ s) ne n q = (λ _. n, q)

Quiet-append : (w s : Bytes) → All IsWordByte w → Quiet s → Quiet (w ++ s)
Quiet-append [] s h q = q
Quiet-append (c ∷ []) [] h q = omega arith
Quiet-append (c ∷ []) (d ∷ s) h q = (λ e. absurd (omega arith), q)
Quiet-append (c ∷ d ∷ w) s h q = (λ e. absurd (omega arith), Quiet-append (d ∷ w) s h.1 q)

join-ne-nil : (w : Bytes) (ws : List Bytes) → w ≢ [] → join (w ∷ ws) (codes " ") ≢ []
unfolding join
join-ne-nil [] ws h e = h refl
join-ne-nil (c ∷ w) [] h e = cc
join-ne-nil (c ∷ w) (v ∷ ws) h e = cc

NotAt-join :
    (b : ℕ) (w : Bytes) (ws : List Bytes) → w ≢ [] → NotAt b w → NotAt b (join (w ∷ ws) (codes " "))
unfolding join
NotAt-join b [] ws ne h = absurd (ne refl)
NotAt-join b (c ∷ w) [] ne h = h
NotAt-join b (c ∷ w) (v ∷ ws) ne h = h

Quiet-join :
    (w : Bytes) (ws : List Bytes)
    → All IsWord (w ∷ ws)
    → All (NotAt b':') (w ∷ ws)
    → Quiet (join (w ∷ ws) (codes " "))
unfolding join
Quiet-join w [] h n = Quiet-word w h.0.0
Quiet-join w (v ∷ ws) h n = Quiet-append w _ h.0.0 (
    Quiet-blank _ (join-ne-nil v ws h.1.0.1) (NotAt-join b':' v ws h.1.0.1 n.1.0)
      (Quiet-join v ws h.1 n.1))

-- The command, its words and the trailing parameter.
pub parse_command_text :
    (command : Bytes) (middle : List Bytes) (trailing : Option Bytes)
    → All IsWord (command ∷ middle)
    → All (NotAt b':') (command ∷ middle)
    → parse_command (join (command ∷ middle) (codes " ") ++ trailing_text trailing)
      ≡ some (command, middle ++ trailing_params trailing)
unfolding parse_command
parse_command_text command middle none h n =
    let text = join (command ∷ middle) (codes " ") in
    rw (append-nil text) (
      ground (
        arith,
        index_colon_none text (Quiet-join command middle h n),
        fields-join command middle h,
      ))
parse_command_text command middle (some t) h n =
    let text = join (command ∷ middle) (codes " ") in
    ground (
      arith,
      index_colon text t (Quiet-join command middle h n),
      take-append text (b' ' ∷ b':' ∷ t),
      drop-append_past text (b' ' ∷ b':' ∷ t) 2,
      fields-join command middle h,
    )

positive-some : (n : Bytes) → n ≢ [] → positive (some (length n)) ≡ some (length n)
positive-some [] h = absurd (h refl)
positive-some (c ∷ n) h = refl

parse_prefix_server :
    (name : Bytes) → IsName name → parse_prefix name ≡ prefix_of (from_server name)
unfolding parse_prefix
parse_prefix_server name h =
    ground (arith, index_byte_none b'!' name h.2, index_byte_none b'@' name h.3)

parse_prefix_user :
    (nick ident host : Bytes)
    → IsSource (from_user nick ident host)
    → parse_prefix (nick ++ (b'!' ∷ (ident ++ (b'@' ∷ host))))
      ≡ prefix_of (from_user nick ident host)
unfolding parse_prefix
parse_prefix_user nick ident host h =
    let user = ident ++ (b'@' ∷ host) in
    ground (
      arith,
      index_byte b'!' nick user h.0.2,
      positive-some nick h.0.0,
      drop-append_past nick (b'!' ∷ user) 1,
      take-append nick (b'!' ∷ user),
      index_byte b'@' ident host h.1.2,
      positive-some ident h.1.0,
      drop-append_past ident (b'@' ∷ host) 1,
      take-append ident (b'@' ∷ host),
    )

strip_prefix_at :
    (p rest : Bytes)
    → Lacks b' ' p
    → strip_prefix (b':' ∷ (p ++ (b' ' ∷ rest))) ≡ some (parse_prefix p, rest)
unfolding strip_prefix
strip_prefix_at p rest h =
    rw (index_byte b' ' (b':' ∷ p) rest (omega arith, h))
      (rw (drop-append_past (b':' ∷ p) (b' ' ∷ rest) 1, take-append p (b' ' ∷ rest)))

-- The source of a message, in front of what does not start with a colon itself.
pub strip_source_text :
    (s : Source) (rest : Bytes)
    → IsSource s
    → rest ≢ []
    → NotAt b':' rest
    → strip_prefix (source_text s rest) ≡ some (prefix_of s, rest)
strip_source_text anonymous [] h ne n = absurd (ne refl)
strip_source_text anonymous (c ∷ rest) h ne n = unfold strip_prefix in ground arith
strip_source_text (from_server name) rest h ne n =
    strip_prefix_at name rest h.1 ∙ ap (λ p. some (p, rest)) (parse_prefix_server name h)
strip_source_text (from_user nick ident host) rest h ne n =
    strip_prefix_at _ rest
      (All-append _ nick _ h.0.1 (omega arith, All-append _ ident _ h.1.1 (omega arith, h.2)))
    ∙ ap (λ p. some (p, rest)) (parse_prefix_user nick ident host h)
