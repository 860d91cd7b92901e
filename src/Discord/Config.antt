-- ===== src/Discord/Config.antt =====
-- db/src/discord-config-store.ts over the table `discord_config`, of which a row is found by its user.
use cobble_companion.Base.{
  ℕ, Bool, true, false, ◌&&◌, not, Option, none, some, is_some, ◌==◌, if◌then◌else◌, Text, text_eq,
}

-- The ids of Discord are texts; the creation and update times are left out.
pub record DiscordConfig : Type 0 where
  pub encrypted_bot_token : Text
  pub bound_companion_id : ℕ
  pub owner_discord_user_id : Option Text
  pub link_code : Option Text
  pub link_code_issued_at : Option ℕ
  pub trigger_bot_id : Option Text
  pub mission_channel_id : Option Text
  pub bot_user_id : Option Text

abbrev pub Configs : Type 0
Configs = ℕ → Option DiscordConfig

unfoldable pub set_config : ℕ → Option DiscordConfig → Configs → Configs
set_config user c db u = if u == user then c else db u

pub record DiscordConfigUpsert : Type 0 where
  pub encrypted_bot_token : Text
  pub bound_companion_id : ℕ
  pub link_code : Text
  pub link_code_issued_at : ℕ

-- The row that a save leaves: the owner is unlinked, and what the save does not name stays.
unfoldable pub saved : DiscordConfigUpsert → Option DiscordConfig → DiscordConfig
saved i none = record {
  encrypted_bot_token = i.encrypted_bot_token;
  bound_companion_id = i.bound_companion_id;
  owner_discord_user_id = none;
  link_code = some i.link_code;
  link_code_issued_at = some i.link_code_issued_at;
  trigger_bot_id = none;
  mission_channel_id = none;
  bot_user_id = none;
}
saved i (some c) = record c {
  encrypted_bot_token = i.encrypted_bot_token;
  bound_companion_id = i.bound_companion_id;
  owner_discord_user_id = none;
  link_code = some i.link_code;
  link_code_issued_at = some i.link_code_issued_at;
}

unfoldable pub upsert : ℕ → DiscordConfigUpsert → Configs → Configs
unfolding set_config saved
upsert user i db = set_config user (some (saved i (db user))) db

-- An update of the row of one user, if it is there.
unfoldable pub update : ℕ → (DiscordConfig → DiscordConfig) → Configs → Configs
unfolding set_config
update user f db = elim (db user) [ none ↦ db | some c ↦ set_config user (some (f c)) db ]

unfoldable pub reissue_link_code : ℕ → Text → ℕ → Configs → Configs
unfolding update
reissue_link_code user code issued_at =
    update user (λ c. record c { link_code = some code; link_code_issued_at = some issued_at })

unfoldable pub holds_code : Text → Option Text → Bool
holds_code code none = false
holds_code code (some c) = text_eq c code

-- The guard of `bindOwner`'s update.
unfoldable pub bindable : Text → DiscordConfig → Bool
unfolding holds_code
bindable code c = holds_code code c.link_code && not (is_some c.owner_discord_user_id)

unfoldable pub bound : Text → DiscordConfig → DiscordConfig
bound owner c = record c {
  owner_discord_user_id = some owner;
  link_code = none;
  link_code_issued_at = none;
}

-- Whether the code was consumed, and the table.
unfoldable pub bind_owner : ℕ → Text → Text → Configs → Bool × Configs
unfolding bindable bound set_config
bind_owner user owner code db = elim (db user) [
  | none ↦ (false, db)
  | some c ↦
      if bindable code c then (true, set_config user (some (bound owner c)) db) else (false, db)
]

unfoldable pub configure_mission_wake : ℕ → Option Text → Option Text → Configs → Configs
unfolding update
configure_mission_wake user bot channel =
    update user (λ c. record c { trigger_bot_id = bot; mission_channel_id = channel })

unfoldable pub set_bot_user_id : ℕ → Text → Configs → Configs
unfolding update
set_bot_user_id user bot = update user (λ c. record c { bot_user_id = some bot })

unfoldable pub delete : ℕ → Configs → Configs
unfolding set_config
delete user = set_config user none
