-- ===== src/Irc/Const.antt =====
-- pkg/irc/const.go: the commands and numerics that the code switches on.
use dispatch.Base.{
  Bytes, codes, ◌==◌, bytes_eq, bytes_beq_iff, if◌then◌else◌, List, [], ◌∷◌, ◌≡◌, ◌≢◌, sym, ap,
  arith,
}

pub data Command : Type 0 where
  cap authenticate nick quit join part kick topic mode privmsg notice error ping : Command
  rpl_welcome rpl_yourhost rpl_created rpl_isupport : Command
  rpl_luserclient rpl_luserop rpl_luserunknown rpl_luserchannels rpl_luserme : Command
  rpl_whoisuser rpl_whoisserver rpl_whoischannels rpl_endofwhois : Command
  rpl_notopic rpl_topic rpl_namreply rpl_endofnames : Command
  rpl_motdstart rpl_motd rpl_endofmotd rpl_list rpl_listend : Command
  err_erroneusnickname err_nicknameinuse err_nickcollision err_unavailresource err_forward : Command
  rpl_loggedin err_nicklocked rpl_saslsuccess : Command
  err_saslfail err_sasltoolong err_saslaborted rpl_saslmechs : Command
  other : Command

-- The word on the wire that a constant stands for.
abbrev pub wire : Command → Bytes
wire Command.cap = codes "CAP"
wire Command.authenticate = codes "AUTHENTICATE"
wire Command.nick = codes "NICK"
wire Command.quit = codes "QUIT"
wire Command.join = codes "JOIN"
wire Command.part = codes "PART"
wire Command.kick = codes "KICK"
wire Command.topic = codes "TOPIC"
wire Command.mode = codes "MODE"
wire Command.privmsg = codes "PRIVMSG"
wire Command.notice = codes "NOTICE"
wire Command.error = codes "ERROR"
wire Command.ping = codes "PING"
wire Command.rpl_welcome = codes "001"
wire Command.rpl_yourhost = codes "002"
wire Command.rpl_created = codes "003"
wire Command.rpl_isupport = codes "005"
wire Command.rpl_luserclient = codes "251"
wire Command.rpl_luserop = codes "252"
wire Command.rpl_luserunknown = codes "253"
wire Command.rpl_luserchannels = codes "254"
wire Command.rpl_luserme = codes "255"
wire Command.rpl_whoisuser = codes "311"
wire Command.rpl_whoisserver = codes "312"
wire Command.rpl_whoischannels = codes "319"
wire Command.rpl_endofwhois = codes "318"
wire Command.rpl_notopic = codes "331"
wire Command.rpl_topic = codes "332"
wire Command.rpl_namreply = codes "353"
wire Command.rpl_endofnames = codes "366"
wire Command.rpl_motdstart = codes "375"
wire Command.rpl_motd = codes "372"
wire Command.rpl_endofmotd = codes "376"
wire Command.rpl_list = codes "322"
wire Command.rpl_listend = codes "323"
wire Command.err_erroneusnickname = codes "432"
wire Command.err_nicknameinuse = codes "433"
wire Command.err_nickcollision = codes "436"
wire Command.err_unavailresource = codes "437"
wire Command.err_forward = codes "470"
wire Command.rpl_loggedin = codes "900"
wire Command.err_nicklocked = codes "902"
wire Command.rpl_saslsuccess = codes "903"
wire Command.err_saslfail = codes "904"
wire Command.err_sasltoolong = codes "905"
wire Command.err_saslaborted = codes "906"
wire Command.rpl_saslmechs = codes "908"
wire Command.other = []

-- The constants, in the order of the numerics.
abbrev commands : List Command
commands =
    Command.cap ∷ Command.authenticate ∷ Command.nick ∷ Command.quit ∷ Command.join ∷ Command.part
    ∷ Command.kick ∷ Command.topic ∷ Command.mode ∷ Command.privmsg ∷ Command.notice ∷ Command.error
    ∷ Command.ping ∷ Command.rpl_welcome ∷ Command.rpl_yourhost ∷ Command.rpl_created
    ∷ Command.rpl_isupport ∷ Command.rpl_luserclient ∷ Command.rpl_luserop
    ∷ Command.rpl_luserunknown ∷ Command.rpl_luserchannels ∷ Command.rpl_luserme
    ∷ Command.rpl_whoisuser ∷ Command.rpl_whoisserver ∷ Command.rpl_whoischannels
    ∷ Command.rpl_endofwhois ∷ Command.rpl_notopic ∷ Command.rpl_topic ∷ Command.rpl_namreply
    ∷ Command.rpl_endofnames ∷ Command.rpl_motdstart ∷ Command.rpl_motd ∷ Command.rpl_endofmotd
    ∷ Command.rpl_list ∷ Command.rpl_listend ∷ Command.err_erroneusnickname
    ∷ Command.err_nicknameinuse ∷ Command.err_nickcollision ∷ Command.err_unavailresource
    ∷ Command.err_forward ∷ Command.rpl_loggedin ∷ Command.err_nicklocked ∷ Command.rpl_saslsuccess
    ∷ Command.err_saslfail ∷ Command.err_sasltoolong ∷ Command.err_saslaborted
    ∷ Command.rpl_saslmechs ∷ []

-- `switch msg.Command`, and the look-up in a table of handlers: the constant that a word equals.
find_command : List Command → Bytes → Command
find_command [] s = Command.other
find_command (c ∷ cs) s = let later = find_command cs s in if wire c == s then c else later

unfoldable pub command_of : Bytes → Command
unfolding find_command
command_of = find_command commands

-- A word that is not one of the constants.
find_command-wire :
    (cs : List Command) (s : Bytes) (c : Command)
    → find_command cs s ≡ c
    → c ≢ Command.other
    → s ≡ wire c
unfolding find_command
find_command-wire [] s c e ne = absurd (ne (sym e))
find_command-wire (d ∷ cs) s c e ne =
    ground (arith, bytes_beq_iff (wire d) s, find_command-wire cs s c, ap wire e)

-- What a command stands for on the wire.
pub command_of-wire : (s : Bytes) (c : Command) → command_of s ≡ c → c ≢ Command.other → s ≡ wire c
unfolding command_of
command_of-wire s c = find_command-wire commands s c
