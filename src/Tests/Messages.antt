-- ===== src/Tests/Messages.antt =====
-- Lines, names and modes of package pkg/irc at concrete inputs.
use mathlib.Core.Logic.{◌↔◌}
use dispatch.Base.{
  true, false, [], ◌∷◌, ◌++◌, none, some, codes, nat_eq, bytes_eq, bytes_beq, ok, panic, ◌≡◌, refl,
  arith, contains, lookup,
}
use dispatch.Irc.Mode.{parse_mode, parse_mode-groups, Groups}
use dispatch.Irc.Message.{parse_message}
use dispatch.Irc.Message.Panics.{OnlyTags, parse_message-panic_iff}
use dispatch.Irc.Message.Printer.{Line, Source, print, meaning, IsLine}
use dispatch.Irc.Message.RoundTrip.{parse_message-print}
use dispatch.Irc.Casefold.{casefold, equal_fold}
use dispatch.Irc.Casefold.Laws.{equal_fold-casefold_iff}
use dispatch.Irc.Ctcp.{Ctcp, decode_ctcp, encode_ctcp, decode_ctcp-encode_ctcp}
use dispatch.Irc.User.{User}
use dispatch.Irc.User.Modes.{IsUser}
use dispatch.Irc.Features.{Features, feature_of, parse_features}
use dispatch.Irc.Features.Laws.{parse_features_last_token}

abbrev greeting : Line
greeting = record {
  tags = (codes "time", codes "12;30") ∷ [];
  source = Source.from_user (codes "ann") (codes "a") (codes "host");
  command = codes "PRIVMSG";
  middle = codes "#chan" ∷ [];
  trailing = some (codes "hello there");
}

greeting-IsLine : IsLine greeting
greeting-IsLine = record {
  keys = ground arith;
  distinct = ground arith;
  source = ground arith;
  words = ground arith;
  no_colon = ground arith;
  no_at = ground arith;
}

parse_message-print_example : parse_message (print greeting) ≡ ok (some (meaning greeting))
parse_message-print_example = parse_message-print greeting greeting-IsLine

parse_message-panic_iff_example :
    (parse_message (codes "@a=b  ") ≡ panic) ↔ OnlyTags (codes "@a=b  ")
parse_message-panic_iff_example = parse_message-panic_iff (codes "@a=b  ")

abbrev op_and_voice : Groups
op_and_voice = (true, codes "ov") ∷ (false, codes "h") ∷ []

parse_mode-groups_example :
    parse_mode (codes "+ov-h")
    ≡ record { network = []; channel = []; user = []; add = codes "ov"; remove = codes "h" }
parse_mode-groups_example = parse_mode-groups op_and_voice (ground arith)

equal_fold-casefold_iff_example :
    (equal_fold (codes "rfc1459") (codes "A[") (codes "a{") ≡ true)
    ↔ (casefold (codes "rfc1459") (codes "A[") ≡ casefold (codes "rfc1459") (codes "a{"))
equal_fold-casefold_iff_example =
    equal_fold-casefold_iff (codes "rfc1459") (codes "A[") (codes "a{") (ground arith)
      (ground arith)

abbrev action : Ctcp
action = record { command = codes "ACTION"; params = codes "waves back" }

decode_ctcp-encode_ctcp_example : decode_ctcp (encode_ctcp (some action)) ≡ some action
decode_ctcp-encode_ctcp_example =
    decode_ctcp-encode_ctcp action (λ e. ground (arith, e)) (ground arith) (ground arith)
      (λ e. omega (arith, e))

abbrev op : User
op = record { nick = codes "ann"; modes = codes "o"; prefix = codes "@" }

op-IsUser : IsUser op
unfolding contains
op-IsUser = record { distinct = ground arith; highest = refl }

parse_features_last_token_example :
    (g h : Features) × (parse_features []
        (codes "ann" ∷ ((codes "MODES=3" ∷ (codes "NICKLEN=9") ∷ []) ++ codes "are supported" ∷ []))
      ≡ ok g)
    × (lookup (codes "NICKLEN") g ≡ some (feature_of (codes "NICKLEN") (codes "9")))
    × (parse_features [] (
          codes "ann" ∷ ((codes "MODES=3" ∷ (codes "-NICKLEN") ∷ []) ++ codes "are supported" ∷ []))
        ≡ ok h)
    × (lookup (codes "NICKLEN") h ≡ none)
unfolding lookup bytes_beq
parse_features_last_token_example =
    parse_features_last_token [] (codes "ann") (codes "are supported") (codes "MODES=3" ∷ []) b'N'
      (codes "ICKLEN") (codes "9") (codes "NICKLEN") (omega arith) (ground arith)
