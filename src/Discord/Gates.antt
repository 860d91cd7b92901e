-- ===== src/Discord/Gates.antt =====
-- Who passes the router's gates.
use cobble_companion.Base.{
  ℕ, ◌-◌, ◌≡◌, ◌≢◌, ◌↔◌, ◌⊎◌, refl, sym, ap, subst, true, false, Option, none, some, some_inj, inl,
  inr, Bool-cases, Option-cases, ltb, Text, text_eq, text_eq_iff, text_eq_self,
}
use cobble_companion.Discord.Config.{
  DiscordConfig, Configs, set_config, bindable, bound, bind_owner,
}
use cobble_companion.Discord.Trigger.{TriggerEvent, parse_trigger_event}
use cobble_companion.Discord.Router.{
  link_code_ttl_ms, linked, Action, replies, owner_message, owner_command, trigger, is_id, owner_of,
  lock_message, handle_direct_message, GuildMessage, fire, handle_guild_trigger, bind, check_code,
  handle_link, lock_command, handle_owner_command,
}

is_id_iff : (i : Option Text) (id : Text) → (is_id i id ≡ true) ↔ (i ≡ some id)
unfolding is_id
is_id_iff none id = (λ h. cc, λ h. cc)
is_id_iff (some i) id = (
  λ h. ap (λ (t : Text). some t) (sym ((text_eq_iff id i).0 h)),
  λ h. rw (some_inj h) (text_eq_self id),
)

fire_iff :
    (user u : ℕ) (id ev : Text) (e : Option TriggerEvent)
    → (fire user e ≡ trigger u id ev)
      ↔ ((user ≡ u) × (e ≡ some (record { mission_id = id; event = ev })))
unfolding fire
fire_iff user u id ev none = (λ h. cc, λ h. cc)
fire_iff user u id ev (some e) =
    (λ h. (cc, ap (λ (t : TriggerEvent). some t) (same_event h)), λ h. cc)
  where
    same_event :
        trigger user e.mission_id e.event ≡ trigger u id ev
        → e ≡ record { mission_id = id; event = ev }
    same_event h =
        let p : e.mission_id ≡ id = cc in
        let q : e.event ≡ ev = cc in λ i. record { mission_id = p i; event = q i }

-- A message in a channel wakes a mission exactly where its author and its channel are the two that the
-- configuration trusts and it parses as a wake of that mission; only then, and for its own user.
handle_guild_trigger_iff :
    (m : GuildMessage) (user : ℕ) (id event : Text)
    → (handle_guild_trigger m ≡ trigger user id event) ↔ (
        (m.trusted_bot ≡ some m.author_id)
        × ((m.trusted_channel ≡ some m.channel_id)
            × ((m.user_id ≡ user)
                × (parse_trigger_event m.content
                    ≡ some (record { mission_id = id; event = event })))))
unfolding handle_guild_trigger
handle_guild_trigger_iff m user id event =
    let bot = is_id_iff m.trusted_bot m.author_id in
    let channel = is_id_iff m.trusted_channel m.channel_id in
    let fired = fire_iff m.user_id user id event (parse_trigger_event m.content) in
    (
      λ h. elim (Bool-cases (is_id m.trusted_bot m.author_id)) [
        | inl b ↦ elim (Bool-cases (is_id m.trusted_channel m.channel_id)) [
          | inl c ↦ (bot.0 b, (channel.0 c, fired.0 (rw (b, c) at h)))
          | inr c ↦ let clash = rw (b, c) at h in cc
        ]
        | inr b ↦ let clash = rw b at h in cc
      ],
      λ h. rw (bot.1 h.0, channel.1 h.1.0) (fired.1 h.1.1),
    )

lock_message_iff :
    (user : ℕ) (author : Text) (o : Option Text)
    → (lock_message user author o ≡ owner_message user) ↔ (o ≡ some author)
unfolding lock_message
lock_message_iff user author none = (λ h. cc, λ h. cc)
lock_message_iff user author (some o) = (
  λ h. elim (Bool-cases (text_eq author o)) [
    | inl e ↦ ap (λ (t : Text). some t) (sym ((text_eq_iff author o).0 e))
    | inr e ↦ let clash = rw e at h in cc
  ],
  λ h. let same : text_eq author o ≡ true = rw (some_inj h) (text_eq_self author) in rw same refl,
)

lock_command_iff :
    (user : ℕ) (author : Text) (o : Option Text)
    → (lock_command user author o ≡ owner_command user) ↔ (o ≡ some author)
unfolding lock_command
lock_command_iff user author none = (λ h. cc, λ h. cc)
lock_command_iff user author (some o) = (
  λ h. elim (Bool-cases (text_eq author o)) [
    | inl e ↦ ap (λ (t : Text). some t) (sym ((text_eq_iff author o).0 e))
    | inr e ↦ let clash = rw e at h in cc
  ],
  λ h. let same : text_eq author o ≡ true = rw (some_inj h) (text_eq_self author) in rw same refl,
)

-- The user's bot hands on a message, or a command other than `/link`, exactly where its author is the
-- bot's owner.
pub owner_lock :
    (db : Configs) (user : ℕ) (author : Text)
    → ((handle_direct_message db user author ≡ owner_message user)
        ↔ (owner_of db user ≡ some author))
      × ((handle_owner_command db user author ≡ owner_command user)
          ↔ (owner_of db user ≡ some author))
unfolding handle_direct_message handle_owner_command
owner_lock db user author = (
  lock_message_iff user author (owner_of db user),
  lock_command_iff user author (owner_of db user),
)

-- The call links: the code waits at the update, for no owner, and the author owns the bot then.
abbrev pub Links : ℕ → Text → Text → Configs → Action × Configs → Type 0
Links user author code db (action, db') =
    (action ≡ replies linked)
    × ((c : DiscordConfig) × (db user ≡ some c)
        × (bindable code c ≡ true)
        × (db' ≡ set_config user (some (bound author c)) db))

bind_lem :
    (user : ℕ) (author code : Text) (db : Configs)
    → let (action, db') = bind user author code db in
      Links user author code db (action, db') ⊎ ((action ≢ replies linked) × (db' ≡ db))
unfolding bind bind_owner
bind_lem user author code db = elim (Option-cases (db user)) [
  | inl n ↦ rw (n, bind, bind_owner) (inr ((λ h. cc), refl))
  | inr (c, n) ↦ elim (Bool-cases (bindable code c)) [
    | inl b ↦ rw (n, bind, bind_owner, b) (inl (refl, (c, refl, b, refl)))
    | inr b ↦ rw (n, bind, bind_owner, b) (inr ((λ h. cc), refl))
  ]
]

waits :
    (user : ℕ) (author provided code : Text) (db : Configs) (end : Action × Configs)
    → provided ≡ code
    → Links user author code db end
    → Links user author provided db end
waits user author provided code db end same =
    subst (λ (c : Text). Links user author c db end) (sym same)

-- Between the read of the code and the update.
abbrev Checked :
    ℕ → Text → Text → ℕ → (Configs → Configs) → Option Text → Option ℕ → Configs → Type 0
Checked user author provided now between code issued db =
    let (action, db') = check_code user author provided now between code issued db in
    (((issued_at : ℕ) × (code ≡ some provided)
        × (issued ≡ some issued_at)
        × (ltb link_code_ttl_ms (now - issued_at) ≡ false))
      × Links user author provided (between db) (action, db'))
    ⊎ ((action ≢ replies linked) × ((db' ≡ db) ⊎ (db' ≡ between db)))

checked :
    (user : ℕ) (author provided : Text) (now : ℕ) (between : Configs → Configs) (code : Option Text)
    (issued : Option ℕ) (db : Configs)
    → Checked user author provided now between code issued db
unfolding check_code
checked user author provided now between none issued db = inr ((λ h. cc), inl refl)
checked user author provided now between (some code) none db = inr ((λ h. cc), inl refl)
checked user author provided now between (some code) (some t) db =
    elim (Bool-cases (ltb link_code_ttl_ms (now - t))) [
      | inl late ↦ rw late (inr ((λ h. cc), inl refl))
      | inr fresh ↦ elim (Bool-cases (text_eq provided code)) [
        | inr wrong ↦ rw (fresh, wrong) (inr ((λ h. cc), inl refl))
        | inl right ↦
            let same : provided ≡ code = (text_eq_iff provided code).0 right in
            rw (fresh, right)
              (elim (bind_lem user author code (between db)) [
                | inl l ↦ inl (
                  (t, ap (λ (c : Text). some c) (sym same), refl, fresh),
                  waits user author provided code (between db) (bind user author code (between db))
                      same l,
                )
                | inr r ↦ inr (r.0, inr r.1)
              ])
      ]
    ]

-- The configuration has a pending code that has not expired on this node's clock and is the one that
-- was given, and it still waits, for no owner, at the update.
abbrev pub Linkable : ℕ → Text → ℕ → Configs → Configs → Type 0
Linkable user provided now read updated =
    ((c : DiscordConfig) × (issued_at : ℕ) × (read user ≡ some c)
      × (c.link_code ≡ some provided)
      × (c.link_code_issued_at ≡ some issued_at)
      × (ltb link_code_ttl_ms (now - issued_at) ≡ false))
    × ((c : DiscordConfig) × (updated user ≡ some c) × (bindable provided c ≡ true))

bind-Links :
    (user : ℕ) (author code : Text) (db : Configs) (c : DiscordConfig)
    → db user ≡ some c
    → bindable code c ≡ true
    → Links user author code db (bind user author code db)
unfolding bind bind_owner
bind-Links user author code db c e b = rw (e, bind, bind_owner, b) (refl, (c, refl, b, refl))

link_succeeds :
    (user : ℕ) (author provided : Text) (now : ℕ) (between : Configs → Configs) (db : Configs)
    → Linkable user provided now db (between db)
    → Links user author provided (between db) (handle_link user author provided now between db)
unfolding handle_link check_code
link_succeeds user author provided now between db ((c, t, e, code, issued, fresh), (d, f, b)) =
    let bound_now = bind-Links user author provided (between db) d f b in
    rw (e, handle_link, code, issued, check_code, fresh, text_eq_self provided) bound_now

linked_or_not :
    (user : ℕ) (author provided : Text) (now : ℕ) (between : Configs → Configs) (db : Configs)
    → let (action, db') = handle_link user author provided now between db in
      (((c : DiscordConfig) × (issued_at : ℕ) × (db user ≡ some c)
          × (c.link_code ≡ some provided)
          × (c.link_code_issued_at ≡ some issued_at)
          × (ltb link_code_ttl_ms (now - issued_at) ≡ false))
        × Links user author provided (between db) (action, db'))
      ⊎ ((action ≢ replies linked) × ((db' ≡ db) ⊎ (db' ≡ between db)))
unfolding handle_link
linked_or_not user author provided now between db = elim (Option-cases (db user)) [
  | inl n ↦ rw (n, handle_link) (inr ((λ h. cc), inl refl))
  | inr (c, n) ↦
      rw (n, handle_link)
        (elim (checked user author provided now between c.link_code c.link_code_issued_at db) [
          | inl (k, l) ↦ inl ((c, k.0, refl, k.1, k.2, k.3), l)
          | inr r ↦ inr r
        ])
]

-- A `/link` by `author` links the user's bot exactly where the configuration has a pending code that
-- has not expired on this node's clock and is the one that was given, and that code still waits, for
-- no owner, at the update. Where it links, the author owns the bot then and the code is spent; where
-- it does not, this call has written nothing.
pub handle_link_lem :
    (user : ℕ) (author provided : Text) (now : ℕ) (between : Configs → Configs) (db : Configs)
    → let (action, db') = handle_link user author provided now between db in
      ((action ≡ replies linked) ↔ Linkable user provided now db (between db))
      × (Links user author provided (between db) (action, db')
          ⊎ ((action ≢ replies linked) × ((db' ≡ db) ⊎ (db' ≡ between db))))
handle_link_lem user author provided now between db =
    let succeeds = link_succeeds user author provided now between db in
    elim (linked_or_not user author provided now between db) [
      | inl (pending, l) ↦
          let (_, (c, e, b, _)) = l in ((λ _. (pending, (c, e, b)), λ h. (succeeds h).0), inl l)
      | inr (not_linked, kept) ↦
          ((λ is. absurd (not_linked is), λ h. (succeeds h).0), inr (not_linked, kept))
    ]
