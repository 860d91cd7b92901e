-- ===== src/Discord.antt =====
-- packages/discord/src/router.ts and parse-trigger.ts, with the store db/src/discord-config-store.ts:
-- who may speak to the bot, link it, and wake a mission.
pub mod Config
pub mod Trigger
pub mod RoundTrip
pub mod Fuel
pub mod Router
pub mod Owner
pub mod Gates
pub mod Examples
