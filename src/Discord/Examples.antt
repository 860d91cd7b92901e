-- ===== src/Discord/Examples.antt =====
-- Tests of the bot on concrete messages, and instances of its theorems.
use cobble_companion.Base.{
  ◌↔◌, zero, suc, ◌==◌, append-nil, if◌then◌else◌, ℕ, ◌≡◌, ◌≢◌, ◌⊎◌, refl, false, none, some, [],
  ◌∷◌, ◌++◌, Text, codes, text_eq, trim, is_empty, ap, arith,
}
use cobble_companion.Ingestion.Untrusted.{starts_with}
use cobble_companion.Discord.Config.{Configs, DiscordConfigUpsert, upsert, bind_owner}
use cobble_companion.Discord.Trigger.{
  is_digit, lower_case, uuid_classes, parse_trigger_event, placeholder, wake_text,
}
use cobble_companion.Discord.RoundTrip.{Braceless, matches, parse_trigger_event-wake_text}
use cobble_companion.Discord.Router.{
  linked, replies, trigger, GuildMessage, handle_guild_trigger, handle_link,
}
use cobble_companion.Discord.Owner.{reissues, binds, run, Owned, bind_owner-once}
use cobble_companion.Discord.Gates.{Links, Linkable, handle_link_lem}

abbrev mission : Text
mission = codes "0123abcd-0123-0123-0123-0123456789ab"

-- A trigger with two mentions, capitals and white space.
loud_trigger :
    parse_trigger_event
      (codes "<@12> <@!345>MISSION:0123ABCD-0123-0123-0123-0123456789AB   new mail <@9> ")
    ≡ some (record { mission_id = mission; event = codes "new mail <@9>" })
unfolding parse_trigger_event uuid_classes lower_case
loud_trigger = refl

no_event : parse_trigger_event (codes "<@12> mission:0123abcd-0123-0123-0123-0123456789ab  ") ≡ none
unfolding parse_trigger_event uuid_classes
no_event = refl

-- Every `{{message}}` is replaced, from the left; `skip` units of one are still to be left out.
unfoldable replace_all : Text → ℕ → Text → Text
unfolding starts_with
replace_all message skip [] = []
replace_all message (suc skip) (x ∷ xs) = replace_all message skip xs
replace_all message zero (x ∷ xs) =
    let rest = replace_all message 0 xs in
    let after = replace_all message 10 xs in
    if starts_with placeholder (x ∷ xs) then message ++ after else x ∷ rest

abbrev render : Text → Text → Text
render text message = replace_all message 0 text

not_placed : (x : ℕ) (xs : Text) → (x == 123) ≡ false → starts_with placeholder (x ∷ xs) ≡ false
unfolding starts_with
not_placed x xs h = ground (arith, h)

render-placeholder :
    (text message : Text) → Braceless text → render (text ++ placeholder) message ≡ text ++ message
unfolding replace_all starts_with
render-placeholder [] message h = append-nil message
render-placeholder (x ∷ xs) message (e, h) =
    rw (not_placed x (xs ++ placeholder) e) (ap (λ t. x ∷ t) (render-placeholder xs message h))

parse_trigger_event-wake_text_example :
    parse_trigger_event (render (wake_text (codes "12") mission) (codes " new mail "))
    ≡ some (record { mission_id = mission; event = trim (codes " new mail ") })
parse_trigger_event-wake_text_example =
    parse_trigger_event-wake_text render render-placeholder (codes "12") mission
      (codes " new mail ") (unfold is_digit in (refl, (refl, tt))) (unfold is_empty in refl)
      (unfold matches uuid_classes in refl) (unfold lower_case in refl)
      (unfold trim is_empty in refl)

abbrev save : DiscordConfigUpsert
save = record {
  encrypted_bot_token = codes "t";
  bound_companion_id = 4;
  link_code = codes "K7";
  link_code_issued_at = 1000;
}

abbrev saved_bot : Configs
saved_bot = upsert 1 save (λ _. none)

bind_owner-once_example :
    let db =
      run
        (reissues 1 (codes "M2") 9 ∷ binds 1 (codes "eve") (codes "M2") ∷ [])
        (bind_owner 1 (codes "ann") (codes "K7") saved_bot).1 in
    Owned 1 (codes "ann") db × ((o c : Text) → (bind_owner 1 o c db).0 ≡ false)
bind_owner-once_example =
    bind_owner-once 1 (codes "ann") (codes "K7") saved_bot
      (reissues 1 (codes "M2") 9 ∷ binds 1 (codes "eve") (codes "M2") ∷ [])
      (unfold upsert bind_owner text_eq in refl) (refl, (refl, tt))

abbrev wake : GuildMessage
wake = record {
  user_id = 1;
  trusted_bot = some (codes "77");
  trusted_channel = some (codes "88");
  author_id = codes "77";
  channel_id = codes "88";
  content = codes "<@12> mission:0123abcd-0123-0123-0123-0123456789ab mail";
}

woken : handle_guild_trigger wake ≡ trigger 1 mission (codes "mail")
unfolding handle_guild_trigger uuid_classes text_eq lower_case
woken = refl

linked_once :
    (handle_link 1 (codes "ann") (codes "K7") 2000 (λ db. db) saved_bot).0 ≡ replies linked
unfolding handle_link upsert text_eq
linked_once = refl

handle_link_lem_example :
    let (action, db') = handle_link 1 (codes "ann") (codes "K7") 2000 (λ db. db) saved_bot in
    ((action ≡ replies linked) ↔ Linkable 1 (codes "K7") 2000 saved_bot saved_bot)
    × (Links 1 (codes "ann") (codes "K7") saved_bot (action, db')
        ⊎ ((action ≢ replies linked) × ((db' ≡ saved_bot) ⊎ (db' ≡ saved_bot))))
handle_link_lem_example = handle_link_lem 1 (codes "ann") (codes "K7") 2000 (λ db. db) saved_bot
