-- ===== src/Pbft/Commit.antt =====
-- `generateSeal` and `generateCommit` of libpdftseal/PBFT.cpp.
use x_chain.Prelude.{ℕ, ◌≡◌, refl, inl, inr, true, arith, ◌==◌, if◌then◌else◌, ==_iff, Bool-cases}
use x_chain.Pbft.{
  Pbft, Header, Bytes, Handlers, generate_seal, generate_commit, request, offer_request,
}

-- A commit of a seal, in any later state, reports whether the view is still that of the seal; when it is not, the
-- state stays as it is, and when it is, the handlers get a request with this view and the engine's own index.
pub generate_commit_lem :
    {X : Type 0} (h : Handlers X) (bi bi' : Header) (block block' : Bytes) (now : ℕ) (p p' : Pbft X)
    → let view = (generate_seal h bi block p).1 in
      let (done, after) = generate_commit h bi' block' view now p' in
      (done ≡ (p.view == p'.view))
      × (after ≡ (if done then offer_request h (request h bi' block' p'.view now p') p' else p'))
unfolding generate_seal generate_commit
generate_commit_lem h bi bi' block block' now p p' = elim (Bool-cases (p.view == p'.view)) [
  | inl same ↦
      let view : p.view ≡ p'.view = (==_iff p.view p'.view).0 same in
      let itself : p'.view == p'.view ≡ true = ground arith in rw (view, itself) (refl, refl)
  | inr other ↦ rw other (refl, refl)
]
