-- ===== src/Tests/Crowd.antt =====
-- Two PUTs of different keys at the same time, one of which is done.
use cmpe272_finaltest_assesm.Prelude.{
  ℕ, zero, suc, ◌<◌, ◌≡◌, ◌≢◌, refl, arith, false, none, some, [], ◌∷◌, ◌=ₜ◌, text_eq_iff,
  if◌then◌else◌,
}
use cmpe272_finaltest_assesm.Bytes.{Bytes, Text}
use cmpe272_finaltest_assesm.Text.{codes}
use cmpe272_finaltest_assesm.Broker.Writers.{
  Files, open_tmp, write_tmp, rename_tmp, put_step, seen, Crowd, pick, Reach, start, later,
}
use cmpe272_finaltest_assesm.Broker.Writers.Shape.{IsSound, AreApart, temp}
use cmpe272_finaltest_assesm.Broker.Writers.Atomic.{GivesWhole, puts_atomic}

abbrev path : ℕ → Text
path zero = codes "ns/x"
path (suc i) = codes "ns/y"

abbrev payload : ℕ → Bytes
payload zero = 1 ∷ 2 ∷ []
payload (suc i) = 3 ∷ []

-- The first key has an old blob.
abbrev before : Files
before = record {
  names = λ q. if q =ₜ codes "ns/x" then some 0 else none;
  content = λ k. 9 ∷ [];
  fresh = 1;
}

before-IsSound : IsSound before
before-IsSound = record {
  below = λ p k e. ground (arith, e);
  single = λ p q k e e'.
      ground (arith, e, e', text_eq_iff p (codes "ns/x"), text_eq_iff q (codes "ns/x"));
}

two-AreApart : AreApart 2 path
two-AreApart = record { paths = paths; temps = temps; mixed = mixed }
  where
    paths : (i j : ℕ) → i < 2 → j < 2 → i ≢ j → (path i =ₜ path j) ≡ false
    paths zero zero h k ne = absurd (ne refl)
    paths zero (suc j) h k ne = refl
    paths (suc i) zero h k ne = refl
    paths (suc i) (suc j) h k ne = absurd (ne (omega arith))

    temps : (i j : ℕ) → i < 2 → j < 2 → i ≢ j → (temp path i =ₜ temp path j) ≡ false
    temps zero zero h k ne = absurd (ne refl)
    temps zero (suc j) h k ne = refl
    temps (suc i) zero h k ne = refl
    temps (suc i) (suc j) h k ne = absurd (ne (omega arith))

    mixed : (i j : ℕ) → i < 2 → j < 2 → (path i =ₜ temp path j) ≡ false
    mixed zero zero h k = refl
    mixed zero (suc j) h k = refl
    mixed (suc i) zero h k = refl
    mixed (suc i) (suc j) h k = refl

no_temps : (i : ℕ) → i < 2 → before.names (temp path i) ≡ none
no_temps zero h = refl
no_temps (suc i) h = refl

record Run : Type 0 where
  last : Crowd
  reach : Reach path payload 2 before last

first_done : Run
first_done = record {
  last = _;
  reach =
      later
        (later
          (later (later (later start (pick 0 (omega arith))) (pick 1 (omega arith)))
            (pick 0 (omega arith)))
          (pick 1 (omega arith)))
        (pick 0 (omega arith));
}

puts_atomic_example :
    ((i : ℕ)
      → i < 2
      → GivesWhole (path i) (payload i) before (first_done.last.stage i) first_done.last.files)
    × ((q : Text)
        → ((i : ℕ) → i < 2 → ((q =ₜ path i) ≡ false) × ((q =ₜ temp path i) ≡ false))
        → seen q first_done.last.files ≡ seen q before)
puts_atomic_example =
    puts_atomic 2 path payload before two-AreApart before-IsSound no_temps first_done.reach

first_seen : seen (path 0) first_done.last.files ≡ some (payload 0)
unfolding first_done put_step open_tmp write_tmp rename_tmp seen
first_seen = refl

second_unseen : seen (path 1) first_done.last.files ≡ none
unfolding first_done put_step open_tmp write_tmp rename_tmp seen
second_unseen = refl
