-- ===== src/Server/Index.antt =====
-- server/index_data.go: the tab of a request, and what the index page is given. `url.PathUnescape` is the
-- library's: a parameter, with `none` for an error, as are the users of a channel that the client knows.
pub mod Tabs
use dispatch.Base.{
  ℕ, zero, suc, Bytes, Bool, true, false, ◌&&◌, ◌||◌, List, [], ◌∷◌, ◌++◌, Option, none, some,
  codes, ◌==◌, bytes_eq, if◌then◌else◌, drop, has_prefix, is_empty, split, split_n2, trim, map,
}
use dispatch.Irc.Mode.{is_channel}
use dispatch.Server.Json.{Response, messages, users}
use dispatch.Server.Live.{History, State}
use dispatch.Storage.Bolt.{Tab}
use dispatch.Storage.Bolt.Messages.{Message}
use dispatch.Storage.Network.{LiveChannel, LiveNetwork}

-- The path of the URL, and as it was escaped; the escaped path of the referer, unless it is no URL; the
-- cookie of the name `tab`
pub record HttpRequest : Type 0 where
  pub path : Bytes
  pub escaped_path : Bytes
  pub referer_path : Option Bytes
  pub cookie : Option Bytes

abbrev no_tab : Tab
no_tab = record { network = []; name = [] }

-- The value of the cookie, unescaped
abbrev pub tab_of_text : Bytes × Option Bytes → Tab
tab_of_text (network, none) = no_tab
tab_of_text (network, some name) = record { network = network; name = name }

module _ (unescape : Bytes → Option Bytes) where
  unfoldable pub tab_of_cookie : Option Bytes → Option Tab
  tab_of_cookie none = none
  tab_of_cookie (some value) = elim (unescape value) [
    | none ↦ none
    | some v ↦ some (tab_of_text (split_n2 v b';'))
  ]

  unfoldable pub tab_of_parts : List Bytes → Option Tab
  tab_of_parts (network ∷ []) = some (record { network = network; name = [] })
  tab_of_parts (network ∷ escaped ∷ []) = elim (unescape escaped) [
    | none ↦ none
    | some name ↦ some (record { network = network; name = name })
  ]
  tab_of_parts _ = some no_tab

  -- The tab of a path and a cookie
  unfoldable pub tab_of_path : Bytes → Option Bytes → Option Tab
  unfolding tab_of_cookie tab_of_parts
  tab_of_path path cookie =
      if path == codes "/" then tab_of_cookie cookie else tab_of_parts (split (trim path b'/') b'/')

  -- `tabFromRequest`; `none` is an error.
  unfoldable pub tab_from_request : HttpRequest → Option Tab
  unfolding tab_of_path
  tab_from_request r =
      if has_prefix r.path (codes "/ws")
      then tab_of_path (drop 3 r.escaped_path) r.cookie
      else (elim r.referer_path [ none ↦ none | some path ↦ tab_of_path path r.cookie ])

-- The loops of `hasTab`
unfoldable pub has_channel_tab : Bytes → Bytes → List LiveChannel → Bool
has_channel_tab network name [] = false
has_channel_tab network name (ch ∷ chs) =
    let rest = has_channel_tab network name chs in
    if network == ch.network && name == ch.name then true else rest

unfoldable pub has_dm_tab : Bytes → Bytes → List Tab → Bool
has_dm_tab network name [] = false
has_dm_tab network name (tab ∷ tabs) =
    let rest = has_dm_tab network name tabs in
    if network == tab.network && name == tab.name then true else rest

unfoldable pub has_tab : List LiveChannel → List Tab → Bytes → Bytes → Bool
unfolding has_channel_tab has_dm_tab
has_tab channels open_dms network name =
    if is_empty name
    then false
    else has_channel_tab network name channels || has_dm_tab network name open_dms

-- The copy of a network that the page is given
abbrev pub for_page : LiveNetwork → LiveNetwork
for_page n = record n { info = record n.info { password = []; username = []; realname = [] } }

pub record IndexData : Type 0 where
  pub networks : List LiveNetwork
  pub channels : List LiveChannel
  pub open_dms : List Tab
  pub users : Option Response
  pub messages : Option Response

abbrev channels_in : List (Bytes × LiveChannel) → List LiveChannel
channels_in [] = []
channels_in ((k, ch) ∷ chs) = ch ∷ channels_in chs

abbrev pub page_networks : List (Bytes × LiveNetwork) → List LiveNetwork
page_networks [] = []
page_networks ((host, n) ∷ ns) = for_page n ∷ page_networks ns

abbrev pub page_channels : List (Bytes × LiveNetwork) → List LiveChannel
page_channels [] = []
page_channels ((host, n) ∷ ns) = channels_in n.channels ++ page_channels ns

abbrev next_of : Bool → Message → Bytes
next_of more m = if more then m.id else []

abbrev page_messages : Bytes → Bytes → List Message × Bool → Option Response
page_messages network name ([], more) = none
page_messages network name (m ∷ ms, more) =
    some (messages network name (m ∷ ms) false (next_of more m))

-- The users of a channel whose client is there
abbrev page_users : (Bytes → Bytes → List Bytes) → Bytes → Bytes → Option Response
page_users known network name =
    if is_channel name && not_empty (known network name)
    then some (users network name (known network name))
    else none
  where
    not_empty : List Bytes → Bool
    not_empty [] = false
    not_empty (u ∷ us) = true

-- `addUsersAndMessages`, with the users that the client of a network knows, none if there is no client
unfoldable pub add_users_and_messages :
    (Bytes → Bytes → List Bytes) → History → Tab → IndexData → IndexData
add_users_and_messages known history tab data' = record data' {
  users = page_users known tab.network tab.name;
  messages = page_messages tab.network tab.name (history tab.network tab.name 50 []);
}

-- `getIndexData` for a state, a tab and the open messages, `none` for an error of either
unfoldable pub get_index_data :
    (Bytes → Bytes → List Bytes) → History → Option Tab → Option (List Tab) → State → IndexData
unfolding has_tab add_users_and_messages
get_index_data known history tab dms s =
    let tabs = dms_or_none dms in
    let base : IndexData = record {
      networks = page_networks s.networks;
      channels = page_channels s.networks;
      open_dms = tabs;
      users = none;
      messages = none;
    } in
    elim tab [
      | none ↦ base
      | some t ↦
          if has_tab base.channels tabs t.network t.name
          then add_users_and_messages known history t base
          else base
    ]
  where
    dms_or_none : Option (List Tab) → List Tab
    dms_or_none none = []
    dms_or_none (some tabs) = tabs
