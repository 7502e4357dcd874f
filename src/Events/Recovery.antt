-- ===== src/Events/Recovery.antt =====
-- Events whose jobs are lost.
use crm_multi_tenant_saas_ar.Prelude.{
  ℕ, Bool, true, false, not, ◌&&◌, String, Option, none, some, List, ◌==◌, ltb, any,
}
use crm_multi_tenant_saas_ar.Events.{EventRow, EventJob, is_stuck}

-- The jobs for the rows of a list.
abbrev pub given : String → List EventJob → Bool
given id jobs = any (λ j. j.event_id == id) jobs

abbrev pub is_stuck_row : String → (String → Option String) → (String → Bool) → ℕ → EventRow → Bool
is_stuck_row id tier_of locked now r =
    r.id == id
    && is_stuck now r
    && ltb now r.expires_at
    && not (locked r.id)
    && elim (tier_of r.tenant_id) [ none ↦ false | some _ ↦ true ]
