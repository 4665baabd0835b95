-- ===== src/Identity/Revocation.antt =====
-- `app/services/revocation.py`, the half that concerns a whole user: one cut-off per user.
-- Redis is taken to answer; its outage raises out of the caller.
use nuvrag_platform.Base.{
  ℕ, ◌+◌, ◌<◌, ◌≡◌, ◌≢◌, Bool, true, false, Option, none, some, List, arith, leb, ltb,
  if◌then◌else◌,
}
use nuvrag_platform.Base.Rows.{get, put, get-put}
use nuvrag_platform.Identity.{Cutoff, cutoff_row}

-- `revoke_all_for_user`, at the second `now`
unfoldable pub revoke_all_for_user : ℕ → ℕ → ℕ → List Cutoff → List Cutoff
revoke_all_for_user now ttl user_id cutoffs =
    put (record { user_id = user_id; epoch = now; expires_at = now + ttl }) cutoffs

-- `GET` of the user's key at the second `now`
abbrev pub read_cutoff : ℕ → ℕ → List Cutoff → Option ℕ
read_cutoff now user_id cutoffs = elim (get user_id cutoffs) [
  | none ↦ none
  | some c ↦ (if ltb now c.expires_at then some c.epoch else none)
]

-- `issued_before_cutoff`
unfoldable pub issued_before_cutoff : ℕ → ℕ → Option ℕ → List Cutoff → Bool
issued_before_cutoff now user_id issued_at cutoffs = elim (read_cutoff now user_id cutoffs) [
  | none ↦ false
  | some epoch ↦ elim issued_at [ none ↦ true | some t ↦ leb t epoch ]
]

-- Once a user's sessions are revoked, every token of theirs that was issued up to that second is
-- refused for as long as a refresh token can live, a token issued later is not refused on their
-- account, and other users' tokens are judged as before.
pub revoke_all_lem :
    (revoked_at ttl now user_id : ℕ) (issued_at : ℕ) (other : ℕ) (other_issued : Option ℕ)
    (cutoffs : List Cutoff)
    → now < revoked_at + ttl
    → let after = revoke_all_for_user revoked_at ttl user_id cutoffs in
      (issued_before_cutoff now user_id (some issued_at) after ≡ leb issued_at revoked_at)
      × (issued_before_cutoff now user_id none after ≡ true)
      × (user_id ≢ other
          → issued_before_cutoff now other other_issued after
            ≡ issued_before_cutoff now other other_issued cutoffs)
unfolding revoke_all_for_user issued_before_cutoff
revoke_all_lem revoked_at ttl now user_id issued_at other other_issued cutoffs h =
    let c : Cutoff = record {
      user_id = user_id;
      epoch = revoked_at;
      expires_at = revoked_at + ttl;
    } in
    ground (arith, get-put user_id c cutoffs, get-put other c cutoffs)
