-- ===== src/Embodiment.antt =====
-- packages/core/src/embodiment/store.ts and presence.ts over the table `active_embodiment` of
-- db/src/schema.ts: which connection holds a companion's room, and the presence that its row carries.
-- A connection id is a ULID, whose texts sort as their numbers do. Each statement runs at the
-- database's clock.
pub mod Holder
pub mod Newest
pub mod Examples
use cobble_companion.Base.{
  ℕ, ◌+◌, Bool, true, false, ◌&&◌, ◌||◌, Option, none, some, ltb, leb, ◌==◌, if◌then◌else◌, put,
  map_option,
}

pub record EmbodimentRow : Type 0 where
  pub connection_id : ℕ
  pub node : ℕ
  pub claim_seq : ℕ
  pub last_heartbeat : ℕ
  pub last_activity_at : ℕ
  pub tab_visible : Bool

-- The rows by companion, the primary key.
abbrev pub Rooms : Type 0
Rooms = ℕ → Option EmbodimentRow

pub record EmbodimentClaim : Type 0 where
  pub companion_id : ℕ
  pub connection_id : ℕ
  pub claim_seq : ℕ

pub record ClaimParams : Type 0 where
  pub companion_id : ℕ
  pub connection_id : ℕ
  pub node : ℕ
  pub ttl_ms : ℕ

-- The inserted row, with the defaults of the table.
unfoldable pub first_claim : ClaimParams → ℕ → EmbodimentRow
first_claim p now = record {
  connection_id = p.connection_id;
  node = p.node;
  claim_seq = 1;
  last_heartbeat = now;
  last_activity_at = now;
  tab_visible = true;
}

-- The row of a takeover.
unfoldable pub take_over : ClaimParams → ℕ → EmbodimentRow → EmbodimentRow
take_over p now r = record {
  connection_id = p.connection_id;
  node = p.node;
  claim_seq = r.claim_seq + 1;
  last_heartbeat = now;
  last_activity_at = now;
  tab_visible = true;
}

-- An older holder, or one whose heartbeat has lapsed: `last_heartbeat < now() - ttl`.
unfoldable pub yields_to : ClaimParams → ℕ → EmbodimentRow → Bool
yields_to p now r = ltb r.connection_id p.connection_id || ltb (r.last_heartbeat + p.ttl_ms) now

unfoldable pub claimed_row : ClaimParams → ℕ → Option EmbodimentRow → Option EmbodimentRow
unfolding first_claim take_over yields_to
claimed_row p now none = some (first_claim p now)
claimed_row p now (some r) = if yields_to p now r then some (take_over p now r) else none

unfoldable pub claim_of : ℕ → EmbodimentRow → EmbodimentClaim
claim_of companion r = record {
  companion_id = companion;
  connection_id = r.connection_id;
  claim_seq = r.claim_seq;
}

unfoldable pub write_claim : ℕ → Option EmbodimentRow → Rooms → Option EmbodimentClaim × Rooms
unfolding claim_of
write_claim companion none rooms = (none, rooms)
write_claim companion (some r) rooms = (some (claim_of companion r), put companion (some r) rooms)

unfoldable pub claim : ClaimParams → ℕ → Rooms → Option EmbodimentClaim × Rooms
unfolding claimed_row write_claim
claim p now rooms = write_claim p.companion_id (claimed_row p now (rooms p.companion_id)) rooms

-- The row, where it is still that of this exact claim.
unfoldable pub under : ℕ → ℕ → Option EmbodimentRow → Bool
under connection seq none = false
under connection seq (some r) = r.connection_id == connection && r.claim_seq == seq

-- The WHERE that all the fenced statements share.
unfoldable pub holds : ℕ → ℕ → ℕ → Rooms → Bool
unfolding under
holds companion connection seq rooms = under connection seq (rooms companion)

unfoldable pub fenced_write : ℕ → ℕ → ℕ → (EmbodimentRow → EmbodimentRow) → Rooms → Rooms
unfolding holds
fenced_write companion connection seq f rooms =
    if holds companion connection seq rooms
    then put companion (map_option f (rooms companion)) rooms
    else rooms

unfoldable pub renew : ℕ → ℕ → ℕ → ℕ → Rooms → Bool × Rooms
unfolding fenced_write
renew companion connection seq now rooms = (
  holds companion connection seq rooms,
  fenced_write companion connection seq (λ r. record r { last_heartbeat = now }) rooms,
)

unfoldable pub release : ℕ → ℕ → ℕ → Rooms → Rooms
unfolding holds
release companion connection seq rooms =
    if holds companion connection seq rooms then put companion none rooms else rooms

-- `last_heartbeat >= now() - ttl`.
unfoldable pub is_live : ℕ → ℕ → EmbodimentRow → Bool
is_live ttl_ms now r = leb now (r.last_heartbeat + ttl_ms)

unfoldable pub live_row : ℕ → ℕ → Option EmbodimentRow → Option EmbodimentRow
unfolding is_live
live_row ttl_ms now none = none
live_row ttl_ms now (some r) = if is_live ttl_ms now r then some r else none

unfoldable pub current : ℕ → ℕ → ℕ → Rooms → Option EmbodimentClaim
unfolding live_row claim_of
current companion ttl_ms now rooms =
    map_option (claim_of companion) (live_row ttl_ms now (rooms companion))

pub record PresenceSignal : Type 0 where
  pub last_activity_at : ℕ
  pub last_heartbeat_at : ℕ
  pub tab_visible : Bool

-- The two writes of the presence store, fenced on the claim.
unfoldable pub record_heartbeat : ℕ → ℕ → ℕ → Bool → Rooms → Rooms
unfolding fenced_write
record_heartbeat companion connection seq tab_visible rooms =
    fenced_write companion connection seq (λ r. record r { tab_visible = tab_visible }) rooms

unfoldable pub record_activity : ℕ → ℕ → ℕ → ℕ → Rooms → Rooms
unfolding fenced_write
record_activity companion connection seq now rooms =
    fenced_write companion connection seq
      (λ r. record r { last_activity_at = now; tab_visible = true }) rooms

unfoldable pub signal_of : EmbodimentRow → PresenceSignal
signal_of r = record {
  last_activity_at = r.last_activity_at;
  last_heartbeat_at = r.last_heartbeat;
  tab_visible = r.tab_visible;
}

unfoldable pub get_presence : ℕ → ℕ → ℕ → Rooms → Option PresenceSignal
unfolding live_row signal_of
get_presence companion ttl_ms now rooms =
    map_option signal_of (live_row ttl_ms now (rooms companion))
