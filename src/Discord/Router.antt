-- ===== src/Discord/Router.antt =====
-- packages/discord/src/router.ts: the owner lock, the handshake of `/link`, and the gate of mission
-- triggers. What the router does is a reply, or a call of one of its handlers.
use cobble_companion.Base.{
  ℕ, ◌-◌, ◌*◌, Bool, false, ◌&&◌, Option, none, some, ltb, if◌then◌else◌, Text, text_eq,
}
use cobble_companion.Discord.Config.{Configs, bind_owner}
use cobble_companion.Discord.Trigger.{TriggerEvent, parse_trigger_event}

abbrev pub link_code_ttl_ms : ℕ
link_code_ttl_ms = 15 * 60 * 1000

pub data Reply : Type 0 where
  not_linked link_first only_owner no_pending_link expired mismatch just_used linked : Reply

pub data Action : Type 0 where
  replies : Reply → Action
  -- `onOwnerMessage`, `onOwnerCommand` and `onTrigger`
  owner_message : ℕ → Action
  owner_command : ℕ → Action
  trigger : ℕ → Text → Text → Action
  drops : Action

-- Whether an id is the one that is configured.
unfoldable pub is_id : Option Text → Text → Bool
is_id none id = false
is_id (some i) id = text_eq id i

unfoldable pub owner_of : Configs → ℕ → Option Text
owner_of db user = elim (db user) [ none ↦ none | some c ↦ c.owner_discord_user_id ]

-- The owner lock of a direct message, by the owner.
unfoldable pub lock_message : ℕ → Text → Option Text → Action
lock_message user author none = replies not_linked
lock_message user author (some o) = if text_eq author o then owner_message user else drops

unfoldable pub handle_direct_message : Configs → ℕ → Text → Action
unfolding owner_of lock_message
handle_direct_message db user author = lock_message user author (owner_of db user)

-- A message in a channel, with the snapshot of the two ids that are trusted.
pub record GuildMessage : Type 0 where
  pub user_id : ℕ
  pub trusted_bot : Option Text
  pub trusted_channel : Option Text
  pub author_id : Text
  pub channel_id : Text
  pub content : Text

unfoldable pub fire : ℕ → Option TriggerEvent → Action
fire user none = drops
fire user (some e) = trigger user e.mission_id e.event

unfoldable pub handle_guild_trigger : GuildMessage → Action
unfolding is_id fire parse_trigger_event
handle_guild_trigger m =
    if is_id m.trusted_bot m.author_id && is_id m.trusted_channel m.channel_id
    then fire m.user_id (parse_trigger_event m.content)
    else drops

-- The handshake: `now` is read on this node's clock, and `between` is what others write between the
-- read of the configuration and the update.
unfoldable pub bind : ℕ → Text → Text → Configs → Action × Configs
unfolding bind_owner
bind user author code db =
    let (consumed, db') = bind_owner user author code db in
    (if consumed then replies linked else replies just_used, db')

unfoldable pub check_code :
    ℕ → Text → Text → ℕ → (Configs → Configs) → Option Text → Option ℕ → Configs → Action × Configs
unfolding bind
check_code user author provided now between (some code) (some issued_at) db =
    if ltb link_code_ttl_ms (now - issued_at)
    then (replies expired, db)
    else (if text_eq provided code
        then bind user author code (between db)
        else (replies mismatch, db))
check_code user author provided now between none issued_at db = (replies no_pending_link, db)
check_code user author provided now between (some _) none db = (replies no_pending_link, db)

unfoldable pub handle_link : ℕ → Text → Text → ℕ → (Configs → Configs) → Configs → Action × Configs
unfolding check_code
handle_link user author provided now between db = elim (db user) [
  | none ↦ (replies no_pending_link, db)
  | some c ↦ check_code user author provided now between c.link_code c.link_code_issued_at db
]

unfoldable pub lock_command : ℕ → Text → Option Text → Action
lock_command user author none = replies link_first
lock_command user author (some o) =
    if text_eq author o then owner_command user else replies only_owner

unfoldable pub handle_owner_command : Configs → ℕ → Text → Action
unfolding owner_of lock_command
handle_owner_command db user author = lock_command user author (owner_of db user)

-- A slash command: `/link` with its option, or another one.
pub data Command : Type 0 where
  link_with : Text → Command
  other : Command

unfoldable pub handle_slash_command :
    ℕ → Text → Command → ℕ → (Configs → Configs) → Configs → Action × Configs
unfolding handle_link handle_owner_command
handle_slash_command user author (link_with provided) now between db =
    handle_link user author provided now between db
handle_slash_command user author other now between db = (handle_owner_command db user author, db)
