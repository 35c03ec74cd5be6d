-- ===== src/Record/Replay/Runs.antt =====
-- Sequences of commits: what a receiver accepts over its lifetime.
use reka_serdoba.Common.{ℕ, ◌≡◌, ◌∙◌, refl, sym, subst, List, [], ◌∷◌, if◌then◌else◌, ok, arith}
use reka_serdoba.Record.Replay.{ReplayWindow, new, plausible, commit_authenticated}
use reka_serdoba.Record.Replay.History.{fresh, IsDistinct, fresh-not_contained}
use reka_serdoba.Record.Replay.Window.{
  Represents, Committed, new-Represents, commit_authenticated-Committed, plausible-fresh,
}

-- The numbers of `ns` committed in turn; `accepted` holds those accepted so far, the last one first.
unfoldable pub commit_all : ReplayWindow → List ℕ → List ℕ → ReplayWindow × List ℕ
commit_all w accepted [] = (w, accepted)
commit_all w accepted (n ∷ ns) =
    let (w', done) = commit_authenticated w n in
    commit_all w' (if done then n ∷ accepted else accepted) ns

-- The same over the history alone.
unfoldable pub fresh_all : ℕ → List ℕ → List ℕ → List ℕ
fresh_all width accepted [] = accepted
fresh_all width accepted (n ∷ ns) =
    fresh_all width (if fresh width accepted n then n ∷ accepted else accepted) ns

commit_all_step :
    (w : ReplayWindow) (accepted ns : List ℕ)
    → Represents w accepted
    → Represents (commit_all w accepted ns).0 (commit_all w accepted ns).1
      × ((commit_all w accepted ns).1 ≡ fresh_all w.width accepted ns)
unfolding commit_all fresh_all
commit_all_step w accepted [] r = (r, refl)
commit_all_step w accepted (n ∷ ns) r =
    let c : Committed w accepted n (commit_authenticated w n) =
      commit_authenticated-Committed w accepted n r in
    let (w', done) = commit_authenticated w n in
    let (r', e) = commit_all_step w' (if done then n ∷ accepted else accepted) ns c.state in
    (r', e ∙ rw (c.width, c.answer))

-- From a new window, the numbers that are accepted are those that the history accepts, whatever
-- arrives and in whatever order.
pub commit_all-fresh_all :
    (width : ℕ) (w : ReplayWindow) (ns : List ℕ)
    → new width ≡ ok w
    → (commit_all w [] ns).1 ≡ fresh_all w.width [] ns
commit_all-fresh_all width w ns e = (commit_all_step w [] ns (new-Represents width w e)).1

fresh_all-IsDistinct :
    (width : ℕ) (accepted ns : List ℕ)
    → IsDistinct accepted
    → IsDistinct (fresh_all width accepted ns)
unfolding fresh_all
fresh_all-IsDistinct width accepted [] d = d
fresh_all-IsDistinct width accepted (n ∷ ns) d =
    fresh_all-IsDistinct width (if fresh width accepted n then n ∷ accepted else accepted) ns
      (ground (arith, fresh-not_contained width accepted n))

-- From a new window, no number is ever accepted twice, whatever arrives and in whatever order.
pub commit_all-IsDistinct :
    (width : ℕ) (w : ReplayWindow) (ns : List ℕ)
    → new width ≡ ok w
    → IsDistinct (commit_all w [] ns).1
commit_all-IsDistinct width w ns e =
    subst IsDistinct (sym (commit_all-fresh_all width w ns e))
      (fresh_all-IsDistinct w.width [] ns tt)

-- A number that passes `plausible` is accepted by the commit that follows it.
pub plausible-commit :
    (w : ReplayWindow) (history : List ℕ) (n : ℕ)
    → Represents w history
    → (commit_authenticated w n).1 ≡ plausible w n
plausible-commit w history n r =
    Committed.answer (commit_authenticated-Committed w history n r)
    ∙ sym (plausible-fresh w history n r)
