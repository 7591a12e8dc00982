-- ===== src/Evm/Invariant/Calls.antt =====
-- What a message call leaves alone.
use x_chain.Prelude.{ℕ, ◌+◌, ◌%◌, ◌≤◌, ◌≡◌, ap, ◌∙◌, arith, length, Bool, max, List}
use x_chain.Evm.State.{ExtVmFace, CallParameters, Vm, ok, interpret_cases}
use x_chain.Evm.Gas.{arg, span, set_run_gas, to_int63, update_io_gas, mem_need}
use x_chain.Evm.Growth.{after_int63, bind_ok}
use x_chain.Evm.Shape.{length-write_at, length-grown, update_mem_shape}
use x_chain.Evm.Cases.Call.{
  call_case, call_price, call_growth, call_offer, call_return, copy_output, in_out_offset,
  case_call_setup, add_run_gas,
}

module _ {W : Type 0} where
  -- what every part of a call keeps
  pub record Called (s t : Vm W) : Type 0 where
    pub code : t.code ≡ s.code
    pub jump_dests : t.jump_dests ≡ s.jump_dests
    pub spp : t.spp ≡ s.spp
    pub words : length s.mem % 32 ≡ 0 → length t.mem % 32 ≡ 0
    pub pc : t.pc ≡ s.pc
    pub bounce : t.bounce ≡ s.bounce
    pub grows : length s.mem ≤ length t.mem

  Called-trans : (s u t : Vm W) → Called s u → Called u t → Called s t
  Called-trans s u t p q = record {
    code = q.code ∙ p.code;
    jump_dests = q.jump_dests ∙ p.jump_dests;
    spp = q.spp ∙ p.spp;
    words = λ e. q.words (p.words e);
    pc = q.pc ∙ p.pc;
    bounce = q.bounce ∙ p.bounce;
    grows = omega (arith, p.grows, q.grows);
  }

  length-copy_output :
      (returned : List ℕ) (s : Vm W) → length (copy_output returned s) ≡ length s.mem
  unfolding copy_output
  length-copy_output returned s = length-write_at s.mem _ _

  set_run_gas-Called : (v : ℕ) (s t : Vm W) → set_run_gas v s ≡ ok tt t → Called s t
  unfolding set_run_gas to_int63
  set_run_gas-Called v s t h = ground arith

  add_run_gas-Called : (b : Bool) (v : ℕ) (s t : Vm W) → add_run_gas b v s ≡ ok tt t → Called s t
  unfolding add_run_gas to_int63
  add_run_gas-Called b v s t h = ground arith

  update_io_gas-Called : (s t : Vm W) → update_io_gas s ≡ ok tt t → Called s t
  unfolding update_io_gas
  update_io_gas-Called s t h = ground arith

  call_growth-Called : (s t : Vm W) → call_growth s ≡ ok tt t → Called s t
  unfolding call_growth mem_need
  call_growth-Called s t h =
      let v = span (arg s (in_out_offset s + 2)) (arg s (in_out_offset s + 3)) in
      let w = span (arg s (in_out_offset s + 4)) (arg s (in_out_offset s + 5)) in
      after_int63 v s t _ h λ in_fits h1. after_int63 w s t _ h1 λ out_fits h2.
        let g = update_mem_shape (max v w) s t (omega arith) h2 in
        ground (arith, length-grown s.mem g.size, g.same, g.whole)

module _ {W : Type 0} (face : ExtVmFace W) where
  call_price-Called : (s t : Vm W) → call_price face s ≡ ok tt t → Called s t
  unfolding call_price
  call_price-Called s t h =
      let (a, u, e, h1) = bind_ok (set_run_gas s.schedule.call_gas s) _ h in
      let (b, v, e1, h2) = bind_ok (add_run_gas _ _ u) _ h1 in
      Called-trans s u t (set_run_gas-Called _ s u e)
        (Called-trans u v t (add_run_gas-Called _ _ u v e1) (add_run_gas-Called _ _ v t h2))

  call_offer-Called :
      (s t : Vm W) (p : CallParameters) (made : Bool)
      → call_offer face s ≡ ok (p, made) t
      → Called s t
  unfolding call_offer
  call_offer-Called s t p made h = ground arith

  case_call_setup-Called :
      (s t : Vm W) (p : CallParameters) (made : Bool)
      → case_call_setup face s ≡ ok (p, made) t
      → Called s t
  unfolding case_call_setup
  case_call_setup-Called s t p made h =
      let (a, u, e, h1) = bind_ok (call_price face s) _ h in
      let (b, v, e1, h2) = bind_ok (call_growth u) _ h1 in
      let (c, w, e2, h3) = bind_ok (update_io_gas v) _ h2 in
      Called-trans s u t (call_price-Called s u e) (
        Called-trans u v t (call_growth-Called u v e1)
          (Called-trans v w t (update_io_gas-Called v w e2) (call_offer-Called w t p made h3)))

  call_return-Called :
      (s t : Vm W) (p : CallParameters × Bool)
      → call_return face p s ≡ ok tt t
      → Called (record s { pc = s.pc + 1 }) t
  unfolding call_return
  call_return-Called s t p h = ground (arith, length-copy_output (face.call s.ext p.0).returned s)

  pub call_case-Called :
      (s t : Vm W)
      → call_case face s ≡ ok tt t
      → Called (record s { pc = s.pc + 1; bounce = interpret_cases }) t
  unfolding call_case
  call_case-Called s t h =
      let s0 : Vm W = record s { bounce = interpret_cases } in
      let ((p, made), u, e, h1) = bind_ok (case_call_setup face s0) _ h in
      let c = case_call_setup-Called s0 u p made e in
      let r = call_return-Called u t (p, made) h1 in
      record {
        code = r.code ∙ c.code;
        jump_dests = r.jump_dests ∙ c.jump_dests;
        spp = r.spp ∙ c.spp;
        words = λ z. r.words (c.words z);
        pc = r.pc ∙ ap (λ n. n + 1) c.pc;
        bounce = r.bounce ∙ c.bounce;
        grows = omega (arith, c.grows, r.grows);
      }
