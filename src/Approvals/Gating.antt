-- ===== src/Approvals/Gating.antt =====
-- What the gate holds.
use cobble_companion.Base.{
  ℕ, ◌≡◌, refl, Bool, true, false, ◌&&◌, Option, some, List, [], ◌∷◌, ◌++◌, ◌==◌, count_where,
  find_where, arith, ==_self,
}
use cobble_companion.Approvals.Tools.{Tool, get_tool}
use cobble_companion.Approvals.Store.{Db, ProposalRow, pending, create, new_proposal, get}
use cobble_companion.Approvals.Gate.{
  ToolCall, TurnCtx, blocked, granted, summary_of, held_call, hold, approval_gate,
}

found_last :
    (c id : ℕ) (rows : List ProposalRow) (m : ProposalRow)
    → count_where (λ (p : ProposalRow). p.id == id) rows ≡ 0
    → (m.id == id && m.companion_id == c) ≡ true
    → find_where (λ p. p.id == id && p.companion_id == c) (rows ++ (m ∷ [])) ≡ some m
unfolding find_where count_where
found_last c id [] m none_yet h = ground arith
found_last c id (r ∷ rows) m none_yet h = ground (arith, found_last c id rows m)

-- A call that is effectful and not granted is held: the gate blocks it with a proposal that is stored
-- as pending under the companion, with the call's name and arguments; nothing is run.
approval_gate-holds :
    (tools : List Tool) (missions : Option (ℕ → Bool)) (call : ToolCall) (ctx : TurnCtx) (db : Db)
    → (t : Tool) → get_tool tools call.name ≡ some t
    → t.effectful ≡ true
    → granted missions ctx ≡ false
    → count_where (λ (p : ProposalRow). p.id == db.next_id) db.proposals ≡ 0
    → let (result, db') = approval_gate tools missions call ctx db in
      (p : ProposalRow) × (result ≡ blocked (summary_of t call) p)
      × (get ctx.companion_id p.id db' ≡ some p)
      × (p.status ≡ pending)
      × (p.tool_name ≡ call.name)
      × (p.tool_args ≡ call.args)
      × (db'.runs ≡ db.runs)
unfolding approval_gate hold create new_proposal get held_call
approval_gate-holds tools missions call ctx db t e is refused fresh =
    rw (e, approval_gate)
      (rw is (
        rw refused (
          new_proposal ctx.companion_id (held_call t call) db.next_id,
          refl,
          found_last ctx.companion_id db.next_id db.proposals _ fresh
              (ground (arith, ==_self db.next_id, ==_self ctx.companion_id)),
          refl,
          refl,
          refl,
          refl,
        )))
