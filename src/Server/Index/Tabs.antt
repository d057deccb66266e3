-- ===== src/Server/Index/Tabs.antt =====
-- The paths of tabs, and the tab that each is read as.
use dispatch.Base.{
  ℕ, Bytes, bytes_beq, false, [], ◌∷◌, ◌++◌, Option, some, nat_eq, bytes_eq, is_empty, split,
  append_assoc, trim, trim_left, trim_right, Lacks, join, split-join, ◌≡◌, ◌≢◌, refl, sym, ap, ◌∙◌,
  arith,
}
use dispatch.Server.Index.{tab_of_parts, tab_of_path}

trim_right-Lacks : (b : ℕ) (s : Bytes) → Lacks b s → trim_right s b ≡ s
unfolding trim_right
trim_right-Lacks b [] h = refl
trim_right-Lacks b (c ∷ s) h = ground (arith, h.0, trim_right-Lacks b s h.1)

trim_right-append :
    (b c : ℕ) (p s : Bytes) → Lacks b (c ∷ s) → trim_right (p ++ c ∷ s) b ≡ p ++ c ∷ s
unfolding trim_right
trim_right-append b c [] s h = trim_right-Lacks b (c ∷ s) h
trim_right-append b c (d ∷ p) s h = ground (arith, trim_right-append b c p s h, is_empty_behind p)
  where
    is_empty_behind : (q : Bytes) → is_empty (q ++ c ∷ s) ≡ false
    is_empty_behind [] = refl
    is_empty_behind (e ∷ q) = refl

trim_left_one : (b c : ℕ) (s : Bytes) → c ≢ b → trim_left (b ∷ c ∷ s) b ≡ c ∷ s
unfolding trim_left
trim_left_one b c s h = ground (arith, h)

trim-path :
    (b c d : ℕ) (s t : Bytes)
    → c ≢ b
    → Lacks b (d ∷ t)
    → trim (b ∷ c ∷ (s ++ b ∷ d ∷ t)) b ≡ c ∷ (s ++ b ∷ d ∷ t)
unfolding trim
trim-path b c d s t hc ht =
    ap (λ l. trim_right l b) (trim_left_one b c (s ++ b ∷ d ∷ t) hc) ∙ one_more (c ∷ s)
  where
    step : (p : Bytes) → (p ++ b ∷ []) ++ d ∷ t ≡ p ++ b ∷ d ∷ t
    step p = append_assoc p (b ∷ []) (d ∷ t)

    one_more : (p : Bytes) → trim_right (p ++ b ∷ d ∷ t) b ≡ p ++ b ∷ d ∷ t
    one_more p =
        ap (λ l. trim_right l b) (sym (step p)) ∙ trim_right-append b d (p ++ b ∷ []) t ht ∙ step p

-- The path of a network and an escaped name, neither of them empty nor with a slash, is read as the tab of
-- the network and the name, whatever the cookie is.
pub tab_of_path_lem :
    (unescape : Bytes → Option Bytes) (cookie : Option Bytes) (c d : ℕ)
    (network escaped name : Bytes)
    → Lacks b'/' (c ∷ network)
    → Lacks b'/' (d ∷ escaped)
    → unescape (d ∷ escaped) ≡ some name
    → tab_of_path unescape (b'/' ∷ c ∷ (network ++ b'/' ∷ d ∷ escaped)) cookie
      ≡ some (record { network = c ∷ network; name = name })
unfolding tab_of_path tab_of_parts bytes_beq join
tab_of_path_lem unescape cookie c d network escaped name hn he hu =
    ap (λ text. tab_of_parts unescape (split text b'/'))
      (trim-path b'/' c d network escaped hn.0 he)
    ∙ ap (λ parts. tab_of_parts unescape parts)
        (split-join b'/' (c ∷ network) ((d ∷ escaped) ∷ []) (hn, (he, tt)))
    ∙ rw (tab_of_parts, hu) refl
