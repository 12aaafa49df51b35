-- ===== src/Receiver/Run.antt =====
-- Whole runs of the receiver: what they promote, and that a replay is refused.
use cmpe272_finaltest_assesm.Prelude.{
  ℕ, ◌≡◌, ◌≢◌, refl, ap, sym, ◌∙◌, true, false, List, ◌⊎◌, inl, inr, arith, text_eq_refl,
  Bool-cases,
}
use cmpe272_finaltest_assesm.Result.{Result, ok, err, Error, Result-cases}
use cmpe272_finaltest_assesm.Bytes.{Bytes, Text, from_hex}
use cmpe272_finaltest_assesm.Json.{Value}
use cmpe272_finaltest_assesm.Receiver.State.{Files, Setting, contains_text, add_text, load_ledger}
use cmpe272_finaltest_assesm.Receiver.Manifest.{
  Plan, resolve_transfer_id, fetch_verified_manifest, plan_of,
}
use cmpe272_finaltest_assesm.Receiver.Receive.{receive_file, receive}
use cmpe272_finaltest_assesm.Receiver.Authentic.{
  IsAuthentic, IsFresh, fetch_verified_manifest-IsAuthentic,
}
use cmpe272_finaltest_assesm.Receiver.Verified.{IsPromoted, Ends, receive_file-Ends}
use cmpe272_finaltest_assesm.Receiver.Loop.{Same}

module _ (s : Setting) (f : Files) where
  abbrev seen : List Text
  seen = load_ledger f.ledger_file

  -- A run that reaches the chunks, with what it got to there.
  pub record IsReached (id : Text) (m : Value) (plan : Plan) : Type 0 where
    pub resolved : resolve_transfer_id s ≡ ok id
    pub checked : fetch_verified_manifest s id seen ≡ ok m
    pub same_run : receive s f ≡ receive_file s id m plan f

  -- Before the chunks no file is touched.
  receive_split :
      ((x : Error) × (receive s f ≡ (err x, f)))
      ⊎ ((id : Text) × (m : Value) × (plan : Plan) × IsReached id m plan)
  unfolding receive
  receive_split = elim (Result-cases (resolve_transfer_id s)) [
    | inr (x, e) ↦ inl (x, ground (arith, e))
    | inl (id, e) ↦ elim (Result-cases (from_hex id)) [
      | inr (x, e1) ↦ inl (x, ground (arith, e, e1))
      | inl (tid, e1) ↦ elim (Result-cases (fetch_verified_manifest s id seen)) [
        | inr (x, e2) ↦ inl (x, ground (arith, e, e1, e2))
        | inl (m, e2) ↦ elim (Result-cases (plan_of s tid m)) [
          | inr (x, e3) ↦ inl (x, ground (arith, e, e1, e2, e3))
          | inl (plan, e3) ↦ inr (
            id,
            m,
            plan,
            record { resolved = e; checked = e2; same_run = ground (arith, e, e1, e2, e3) },
          )
        ]
      ]
    ]
  ]

  -- A run without a promotion, or one with the promotion of an intact file for an authentic manifest.
  abbrev pub Outcome : Result ℕ × Files → Type 0
  Outcome (r, f') =
      ((r ≢ ok 0) × Same f f')
      ⊎ ((id : Text) × (m : Value) × (c : Bytes) × (resolve_transfer_id s ≡ ok id)
          × IsAuthentic s id seen m
          × IsPromoted s id m f f' c)

  Ends-Outcome :
      (id : Text) (m : Value) (o : Result ℕ × Files)
      → resolve_transfer_id s ≡ ok id
      → IsAuthentic s id seen m
      → Ends s id m f o
      → Outcome o
  Ends-Outcome id m o e a (inl kept) = inl kept
  Ends-Outcome id m o e a (inr (c, p)) = inr (id, m, c, e, a, p)

  -- Whatever the broker answers: either the run does not return 0, and the final name and the
  -- ledger are as they were; or the final name holds a file that has the size and the digest of a
  -- manifest which was signed by the sender and passed the checks on its version, its id and its age,
  -- and the id is in the ledger.
  pub only_verified : Outcome (receive s f)
  only_verified = elim receive_split [
    | inl (x, e) ↦ rw e (inl (λ h. cc, (refl, refl)))
    | inr (id, m, plan, r) ↦ rw r.same_run (
        Ends-Outcome id m (receive_file s id m plan f) r.resolved
          (fetch_verified_manifest-IsAuthentic s id seen m r.checked)
          (receive_file-Ends s id m plan f))
  ]

  not_fresh :
      (id id' : Text) {created_at : ℕ}
      → s.allow_redeliver ≡ false
      → ◌≡◌ {A = Result Text} (ok id) (ok id')
      → contains_text seen id ≡ true
      → ((s.allow_redeliver ≡ true) ⊎ IsFresh s id' seen created_at)
      → ⊥
  not_fresh id id' strict e old (inl allowed) = cc
  not_fresh id id' strict e old (inr fresh) =
      let unseen = fresh.not_seen in
      let same : id ≡ id' = ground arith in cc (ap (contains_text seen) same)

  -- Without the option to deliver again, a transfer that is in the ledger is refused before any file
  -- is touched.
  replay_refused :
      (id : Text)
      → s.allow_redeliver ≡ false
      → resolve_transfer_id s ≡ ok id
      → contains_text seen id ≡ true
      → (x : Error) × (receive s f ≡ (err x, f))
  replay_refused id strict e old = elim receive_split [
    | inl refused ↦ refused
    | inr (id', m, plan, r) ↦ absurd (
        not_fresh id id' strict (sym e ∙ r.resolved) old
          (fetch_verified_manifest-IsAuthentic s id' seen m r.checked).fresh)
  ]

contains_text-add_text : (t : Text) (l : List Text) → contains_text (add_text t l) t ≡ true
unfolding add_text contains_text
contains_text-add_text t l = elim (Bool-cases (contains_text l t)) [
  | inl old ↦ rw old old
  | inr new ↦ rw (new, text_eq_refl t)
]

-- A transfer that was delivered once is not delivered again: every later run for its id, with any
-- broker and at any time, is refused and touches no file, unless a second delivery is allowed.
pub no_second_delivery :
    (s s' : Setting) (f : Files) (id : Text)
    → resolve_transfer_id s ≡ ok id
    → (receive s f).0 ≡ ok 0
    → s'.allow_redeliver ≡ false
    → resolve_transfer_id s' ≡ ok id
    → let f' = (receive s f).1 in (x : Error) × (receive s' f' ≡ (err x, f'))
no_second_delivery s s' f id e done strict e' =
    replay_refused s' (receive s f).1 id strict e' (delivered (only_verified s f))
  where
    delivered :
        Outcome s f (receive s f)
        → contains_text (load_ledger (receive s f).1.ledger_file) id ≡ true
    delivered (inl (failed, same)) = absurd (failed done)
    delivered (inr (id', m, c, e2, a, p)) =
        let same : id' ≡ id = ground (arith, e, e2) in
        rw p.recorded
          (unfold load_ledger in rw same (contains_text-add_text id (load_ledger f.ledger_file)))
