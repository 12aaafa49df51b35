-- ===== src/Session/Lines.antt =====
-- The keys that the broker joins to lines, the client splits again.
use cmpe272_finaltest_assesm.Prelude.{
  ℕ, ◌<◌, ◌≡◌, refl, ap, sym, ◌∙◌, Bool, true, ◌&&◌, List, [], ◌∷◌, ◌++◌, append_assoc, append-nil,
  arith, length,
}
use cmpe272_finaltest_assesm.Bytes.{Text}
use cmpe272_finaltest_assesm.Broker.Confined.{all, avoids}
use cmpe272_finaltest_assesm.Broker.Legal.{all-append}
use cmpe272_finaltest_assesm.Broker.Every.{Every, nil, cons}
use cmpe272_finaltest_assesm.Broker.Command.{join_lines}
use cmpe272_finaltest_assesm.Client.{cons_line, lines_from, lines}

-- A text that stands in one line.
pub record IsLine (k : Text) : Type 0 where
  pub not_empty : 0 < length k
  pub one_line : avoids b'\n' k ≡ true

lines_from-last :
    (line k : Text) → avoids b'\n' k ≡ true → lines_from line k ≡ cons_line (line ++ k) []
unfolding lines_from avoids
lines_from-last line [] h = ap (λ s. cons_line s []) (sym (append-nil line))
lines_from-last line (c ∷ k) h =
    let ih = lines_from-last (line ++ c ∷ []) k (ground arith) in
    let joined = append_assoc line (c ∷ []) k in ground (arith, ih, joined)

lines_from-line :
    (line k rest : Text)
    → avoids b'\n' k ≡ true
    → lines_from line (k ++ b'\n' ∷ rest) ≡ cons_line (line ++ k) (lines_from [] rest)
unfolding lines_from avoids
lines_from-line line [] rest h = ap (λ s. cons_line s (lines_from [] rest)) (sym (append-nil line))
lines_from-line line (c ∷ k) rest h =
    let ih = lines_from-line (line ++ c ∷ []) k rest (ground arith) in
    let joined = append_assoc line (c ∷ []) k in ground (arith, ih, joined)

cons_line_lem : (k : Text) (l : List Text) → 0 < length k → cons_line k l ≡ k ∷ l
cons_line_lem [] l h = elim h [ ]
cons_line_lem (c ∷ k) l h = refl

-- What is split is what was joined.
pub lines-join_lines : (l : List Text) → Every IsLine l → lines (join_lines l) ≡ l
unfolding lines_from
lines-join_lines [] nil = refl
lines-join_lines (k ∷ []) (cons h nil) =
    lines_from-last [] k h.one_line ∙ cons_line_lem k [] h.not_empty
lines-join_lines (k ∷ j ∷ l) (cons h hs) =
    lines_from-line [] k (join_lines (j ∷ l)) h.one_line
    ∙ cons_line_lem k (lines (join_lines (j ∷ l))) h.not_empty
    ∙ ap (λ m. k ∷ m) (lines-join_lines (j ∷ l) hs)

-- Joining keeps a class that has the newline.
pub all-join_lines :
    (p : ℕ → Bool) (l : List Text)
    → p b'\n' ≡ true
    → Every (λ k. all p k ≡ true) l
    → all p (join_lines l) ≡ true
unfolding all
all-join_lines p [] n nil = refl
all-join_lines p (k ∷ []) n (cons h nil) = h
all-join_lines p (k ∷ j ∷ l) n (cons h hs) =
    all-append p k (b'\n' ∷ join_lines (j ∷ l)) h
      (ap (λ b. b && all p (join_lines (j ∷ l))) n ∙ all-join_lines p (j ∷ l) n hs)
