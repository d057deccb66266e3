-- ===== src/Irc/Message/Printer.antt =====
-- How a line is written (IRC client protocol, message tags): the reference that `ParseMessage` reads.
use dispatch.Base.{
  ℕ, Bytes, [], ◌∷◌, ◌++◌, ◌≢◌, Option, none, some, List, Lacks, All, IsWord, join, map, codes,
}
use dispatch.Irc.Message.{Message, no_meta, Prefix}
use dispatch.Irc.Message.Escape.{escape_tag}

pub data Source : Type 0 where
  anonymous : Source
  from_server : Bytes → Source
  from_user : Bytes → Bytes → Bytes → Source

pub record Line : Type 0 where
  pub tags : List (Bytes × Bytes)
  pub source : Source
  pub command : Bytes
  pub middle : List Bytes
  pub trailing : Option Bytes

abbrev pub tag_text : Bytes × Bytes → Bytes
tag_text (key, value) = key ++ (b'=' ∷ escape_tag value)

abbrev pub tags_text : List (Bytes × Bytes) → Bytes → Bytes
tags_text [] rest = rest
tags_text (t ∷ ts) rest = b'@' ∷ (join (map tag_text (t ∷ ts)) (codes ";") ++ (b' ' ∷ rest))

abbrev pub source_text : Source → Bytes → Bytes
source_text anonymous rest = rest
source_text (from_server name) rest = b':' ∷ (name ++ (b' ' ∷ rest))
source_text (from_user nick ident host) rest =
    b':' ∷ ((nick ++ (b'!' ∷ (ident ++ (b'@' ∷ host)))) ++ (b' ' ∷ rest))

abbrev pub trailing_text : Option Bytes → Bytes
trailing_text none = []
trailing_text (some t) = b' ' ∷ b':' ∷ t

abbrev pub command_text : Line → Bytes
command_text l = join (l.command ∷ l.middle) (codes " ") ++ trailing_text l.trailing

abbrev pub print : Line → Bytes
print l = tags_text l.tags (source_text l.source (command_text l))

-- What the line says.
abbrev pub prefix_of : Source → Prefix
prefix_of anonymous = record { sender = []; ident = []; host = [] }
prefix_of (from_server name) = record { sender = name; ident = []; host = [] }
prefix_of (from_user nick ident host) = record { sender = nick; ident = ident; host = host }

abbrev pub trailing_params : Option Bytes → List Bytes
trailing_params none = []
trailing_params (some t) = t ∷ []

abbrev pub meaning : Line → Message
meaning l = record {
  tags = l.tags;
  sender = (prefix_of l.source).sender;
  ident = (prefix_of l.source).ident;
  host = (prefix_of l.source).host;
  command = l.command;
  params = l.middle ++ trailing_params l.trailing;
  meta = no_meta;
}

abbrev pub IsKey : Bytes → Type 0
IsKey k = (k ≢ []) × Lacks b'=' k × Lacks b';' k × Lacks b' ' k

abbrev pub Fresh : Bytes → List (Bytes × Bytes) → Type 0
Fresh k = All (λ t. t.0 ≢ k)

abbrev pub Distinct : List (Bytes × Bytes) → Type 0
Distinct [] = Unit
Distinct ((k, v) ∷ ts) = Fresh k ts × Distinct ts

abbrev pub IsName : Bytes → Type 0
IsName n = (n ≢ []) × Lacks b' ' n × Lacks b'!' n × Lacks b'@' n

abbrev pub IsSource : Source → Type 0
IsSource anonymous = Unit
IsSource (from_server name) = IsName name
IsSource (from_user nick ident host) =
    IsName nick × ((ident ≢ []) × Lacks b' ' ident × Lacks b'@' ident) × Lacks b' ' host

-- The first byte is not `b`.
abbrev pub NotAt : ℕ → Bytes → Type 0
NotAt b [] = Unit
NotAt b (c ∷ s) = c ≢ b

-- Words of printable ASCII that a reader does not take for a trailing parameter or a prefix.
pub record IsLine (l : Line) : Type 0 where
  pub keys : All (λ t. IsKey t.0) l.tags
  pub distinct : Distinct l.tags
  pub source : IsSource l.source
  pub words : All IsWord (l.command ∷ l.middle)
  pub no_colon : All (NotAt b':') (l.command ∷ l.middle)
  pub no_at : NotAt b'@' l.command
