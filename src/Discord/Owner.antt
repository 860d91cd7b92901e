-- ===== src/Discord/Owner.antt =====
-- Who owns a linked bot, through the writes of all the nodes to `discord_config`.
use cobble_companion.Base.{
  ℕ, ◌≡◌, refl, sym, ap, ◌∙◌, Bool, true, false, not, Option, none, some, some_inj, ◌==◌, ==_iff,
  ==_self, inl, inr, Bool-cases, Option-cases, Text, List, [], ◌∷◌, All, arith,
}
use cobble_companion.Discord.Config.{
  DiscordConfig, Configs, set_config, DiscordConfigUpsert, upsert, update, reissue_link_code,
  bindable, bound, bind_owner, configure_mission_wake, set_bot_user_id, delete,
}

pub data Statement : Type 0 where
  saves : ℕ → DiscordConfigUpsert → Statement
  reissues : ℕ → Text → ℕ → Statement
  binds : ℕ → Text → Text → Statement
  wakes : ℕ → Option Text → Option Text → Statement
  meets : ℕ → Text → Statement
  deletes : ℕ → Statement

unfoldable pub step : Statement → Configs → Configs
unfolding upsert reissue_link_code bind_owner configure_mission_wake set_bot_user_id delete
step (saves u i) db = upsert u i db
step (reissues u code t) db = reissue_link_code u code t db
step (binds u owner code) db = (bind_owner u owner code db).1
step (wakes u bot channel) db = configure_mission_wake u bot channel db
step (meets u bot) db = set_bot_user_id u bot db
step (deletes u) db = delete u db

unfoldable pub run : List Statement → Configs → Configs
unfolding step
run [] db = db
run (s ∷ ss) db = run ss (step s db)

-- Neither a save of the user's bot nor its removal.
abbrev pub keeps_link : ℕ → Statement → Bool
keeps_link user (saves u i) = not (u == user)
keeps_link user (deletes u) = not (u == user)
keeps_link user (reissues _ _ _) = true
keeps_link user (binds _ _ _) = true
keeps_link user (wakes _ _ _) = true
keeps_link user (meets _ _) = true

-- The user's bot has this owner.
abbrev pub Owned : ℕ → Text → Configs → Type 0
Owned user owner db =
    (c : DiscordConfig) × (db user ≡ some c) × (c.owner_discord_user_id ≡ some owner)

update-Owned :
    (user u : ℕ) (owner : Text) (f : DiscordConfig → DiscordConfig) (db : Configs)
    → ((c : DiscordConfig) → (f c).owner_discord_user_id ≡ c.owner_discord_user_id)
    → Owned user owner db
    → Owned user owner (update u f db)
unfolding update set_config
update-Owned user u owner f db keeps (c, e, o) = elim (Bool-cases (user == u)) [
  | inl q ↦
      let here : db u ≡ some c = ap db (sym ((==_iff user u).0 q)) ∙ e in
      (f c, rw (here, update, set_config, q) refl, keeps c ∙ o)
  | inr q ↦ elim (Option-cases (db u)) [
    | inl n ↦ (c, rw (n, update) e, o)
    | inr (d, n) ↦ (c, rw (n, update, set_config, q) e, o)
  ]
]

-- A write to the row of another user.
set_config-Owned :
    (user u : ℕ) (owner : Text) (row : Option DiscordConfig) (db : Configs)
    → not (u == user) ≡ true
    → Owned user owner db
    → Owned user owner (set_config u row db)
unfolding set_config
set_config-Owned user u owner row db k (c, e, o) =
    let apart : (user == u) ≡ false = ground (arith, k) in (c, rw apart e, o)

Owned-refuses :
    (user : ℕ) (owner o code : Text) (db : Configs)
    → Owned user owner db
    → (bind_owner user o code db).0 ≡ false
unfolding bind_owner bindable
Owned-refuses user owner o code db (c, e, h) =
    let refused : bindable code c ≡ false = rw h (ground arith) in rw (e, bind_owner, refused) refl

bind_owner-keeps :
    (user u : ℕ) (owner o code : Text) (db : Configs)
    → Owned user owner db
    → Owned user owner (bind_owner u o code db).1
unfolding bind_owner bindable
bind_owner-keeps user u owner o code db h = elim (Option-cases (db u)) [
  | inl n ↦ rw (n, bind_owner) h
  | inr (d, n) ↦ elim (Bool-cases (bindable code d)) [
    | inl b ↦ elim (Bool-cases (u == user)) [
      | inl q ↦
          let (c, e, owned) = h in
          let same : d ≡ c = some_inj (sym n ∙ ap db ((==_iff u user).0 q) ∙ e) in
          let refused : bindable code c ≡ false = rw owned (ground arith) in
          let clash : true ≡ false = sym b ∙ ap (bindable code) same ∙ refused in cc
      | inr q ↦ rw (n, bind_owner, b) (set_config-Owned user u owner _ db (rw q refl) h)
    ]
    | inr b ↦ rw (n, bind_owner, b) h
  ]
]

step-Owned :
    (user : ℕ) (owner : Text) (s : Statement) (db : Configs)
    → keeps_link user s ≡ true
    → Owned user owner db
    → Owned user owner (step s db)
unfolding step
step-Owned user owner (saves u i) db k h = unfold upsert in set_config-Owned user u owner _ db k h
step-Owned user owner (reissues u code t) db k h =
    unfold reissue_link_code in update-Owned user u owner _ db (λ c. refl) h
step-Owned user owner (binds u o code) db k h = bind_owner-keeps user u owner o code db h
step-Owned user owner (wakes u bot channel) db k h =
    unfold configure_mission_wake in update-Owned user u owner _ db (λ c. refl) h
step-Owned user owner (meets u bot) db k h =
    unfold set_bot_user_id in update-Owned user u owner _ db (λ c. refl) h
step-Owned user owner (deletes u) db k h =
    unfold delete in set_config-Owned user u owner none db k h

run-Owned :
    (user : ℕ) (owner : Text) (ss : List Statement) (db : Configs)
    → All (λ s. keeps_link user s ≡ true) ss
    → Owned user owner db
    → Owned user owner (run ss db)
unfolding run
run-Owned user owner [] db k h = h
run-Owned user owner (s ∷ ss) db k h =
    run-Owned user owner ss (step s db) k.1 (step-Owned user owner s db k.0 h)

bind_owner-Owned :
    (user : ℕ) (owner code : Text) (db : Configs)
    → (bind_owner user owner code db).0 ≡ true
    → Owned user owner (bind_owner user owner code db).1
unfolding bind_owner bound set_config
bind_owner-Owned user owner code db h = elim (Option-cases (db user)) [
  | inl n ↦ let clash = rw (n, bind_owner) at h in cc
  | inr (c, n) ↦ elim (Bool-cases (bindable code c)) [
    | inl b ↦ (bound owner c, rw (n, bind_owner, b, set_config, ==_self user) refl, refl)
    | inr b ↦ let clash = rw (n, bind_owner, b) at h in cc
  ]
]

-- Once a code has bound an owner to the user's bot, that owner stays, and every further attempt to
-- bind is refused, with a reissued code too, through any statements but a save or a removal of the bot.
pub bind_owner-once :
    (user : ℕ) (owner code : Text) (db : Configs) (ss : List Statement)
    → (bind_owner user owner code db).0 ≡ true
    → All (λ s. keeps_link user s ≡ true) ss
    → let db' = run ss (bind_owner user owner code db).1 in
      Owned user owner db' × ((o c : Text) → (bind_owner user o c db').0 ≡ false)
bind_owner-once user owner code db ss h k =
    let owned = run-Owned user owner ss _ k (bind_owner-Owned user owner code db h) in
    (owned, λ o c. Owned-refuses user owner o c _ owned)
