-- ===== src/Network/Dns/Wire/Walk.antt =====
-- The loop of `skip_name`: each round, and the whole walk, on any buffer.
use dev_browse.Prelude.{
  ℕ, zero, suc, ◌+◌, ◌-◌, ◌≤◌, ◌<◌, ◌≡◌, refl, List, Option, none, some, Outcome, ok, err, panic,
  length, arith, Bool-cases, inl, inr, ltb, leb,
}
use dev_browse.Prelude.Fallible.{index_within}
use dev_browse.Network.Dns.Wire.{WireError}
use dev_browse.Network.Dns.Wire.Reader.{
  Skip, Round, again, return, unwrap_or, follow_pointer, skip_label, skip_round, after_round,
  skip_loop, skip_from, skip_fuel, skip_name,
}

-- Where the walk that began at `start` may end; it has to move on and stay within the buffer.
abbrev pub Ends : List ℕ → ℕ → Outcome WireError ℕ → Type 0
Ends buf start (ok c) = (start < c) × (c ≤ length buf)
Ends buf start (err e) = Unit
Ends buf start panic = ⊥

abbrev Resume : List ℕ → ℕ → ℕ → Option ℕ → Type 0
Resume buf start cursor none = start ≤ cursor
Resume buf start cursor (some p) = (start < p) × (p ≤ length buf)

record Walking (buf : List ℕ) (start : ℕ) (s : Skip) : Type 0 where
  hops : s.hops ≤ 16
  total_len : s.total_len ≤ 255
  resume : Resume buf start s.cursor s.after_pointer

-- The rounds that the loop may still take.
abbrev budget : Skip → ℕ
budget s = (16 - s.hops) + (255 - s.total_len)

abbrev RoundOk : List ℕ → ℕ → Skip → Outcome WireError Round → Type 0
RoundOk buf start s (ok (again t)) = Walking buf start t × (budget t < budget s)
RoundOk buf start s (ok (return c)) = Ends buf start (ok c)
RoundOk buf start s (err e) = Unit
RoundOk buf start s panic = ⊥

resume_some :
    (buf : List ℕ) (start cursor : ℕ) (o : Option ℕ)
    → Resume buf start cursor o
    → cursor + 2 ≤ length buf
    → (start < unwrap_or o (cursor + 2)) × (unwrap_or o (cursor + 2) ≤ length buf)
resume_some buf start cursor none h b = omega arith
resume_some buf start cursor (some p) h b = h

resume_end :
    (buf : List ℕ) (start cursor : ℕ) (o : Option ℕ)
    → Resume buf start cursor o
    → cursor + 1 ≤ length buf
    → (start < unwrap_or o (cursor + 1)) × (unwrap_or o (cursor + 1) ≤ length buf)
resume_end buf start cursor none h b = omega arith
resume_end buf start cursor (some p) h b = h

resume_later :
    (buf : List ℕ) (start cursor n : ℕ) (o : Option ℕ)
    → Resume buf start cursor o
    → Resume buf start (cursor + 1 + n) o
resume_later buf start cursor n none h = omega arith
resume_later buf start cursor n (some p) h = h

follow_pointer-Round_ok :
    (buf : List ℕ) (start b : ℕ) (s : Skip)
    → Walking buf start s
    → RoundOk buf start s (follow_pointer buf b s)
unfolding follow_pointer
follow_pointer-Round_ok buf start b s w = elim (Bool-cases (ltb (length buf) (s.cursor + 2))) [
  | inl e ↦ ground arith
  | inr e ↦
      let (low, at) = index_within {E = WireError} buf (s.cursor + 1) (ground arith) in
      ground
        (arith, at, w.hops, w.total_len, resume_some buf start s.cursor s.after_pointer w.resume)
]

skip_label-Round_ok :
    (buf : List ℕ) (start b : ℕ) (s : Skip)
    → Walking buf start s
    → RoundOk buf start s (skip_label buf b s)
unfolding skip_label
skip_label-Round_ok buf start b s w =
    ground (arith, w.hops, w.total_len, w.resume, resume_later buf start s.cursor b s.after_pointer)

skip_round-Round_ok :
    (buf : List ℕ) (start : ℕ) (s : Skip)
    → Walking buf start s
    → RoundOk buf start s (skip_round buf s)
unfolding skip_round
skip_round-Round_ok buf start s w = elim (Bool-cases (leb (length buf) s.cursor)) [
  | inl e ↦ ground arith
  | inr e ↦
      let (b, at) = index_within {E = WireError} buf s.cursor (ground arith) in
      ground (
        arith,
        at,
        resume_end buf start s.cursor s.after_pointer w.resume,
        follow_pointer-Round_ok buf start b s w,
        skip_label-Round_ok buf start b s w,
      )
]

-- A result that the loop comes to, and that is a right end.
abbrev Ending : List ℕ → ℕ → Option (Outcome WireError ℕ) → Type 0
Ending buf start o = (r : Outcome WireError ℕ) × (o ≡ some r) × Ends buf start r

after_round-Ending :
    (buf : List ℕ) (start : ℕ) (s : Skip) (next : Skip → Option (Outcome WireError ℕ))
    → ((t : Skip) → Walking buf start t → budget t < budget s → Ending buf start (next t))
    → (o : Outcome WireError Round) → RoundOk buf start s o
    → Ending buf start (after_round next o)
after_round-Ending buf start s next f (ok (again t)) (w, b) = f t w b
after_round-Ending buf start s next f (ok (return c)) g = (ok c, refl, g)
after_round-Ending buf start s next f (err e) g = (err e, refl, tt)
after_round-Ending buf start s next f panic g = absurd g

skip_loop-Ending :
    (fuel : ℕ) (buf : List ℕ) (start : ℕ) (s : Skip)
    → Walking buf start s
    → budget s < fuel
    → Ending buf start (skip_loop fuel buf s)
unfolding skip_loop
skip_loop-Ending zero buf start s w h = absurd (omega arith)
skip_loop-Ending (suc fuel) buf start s w h =
    after_round-Ending buf start s (skip_loop fuel buf)
      (λ t v b. skip_loop-Ending fuel buf start t v (omega arith)) _
      (skip_round-Round_ok buf start s w)

Walking-skip_from : (buf : List ℕ) (start : ℕ) → Walking buf start (skip_from start)
Walking-skip_from buf start = record {
  hops = omega arith;
  total_len = omega arith;
  resume = omega arith;
}

-- On every buffer, hostile ones included, and from every start the loop of `skip_name` ends within
-- 272 rounds, reads no byte out of bounds, and an end that it returns lies behind the start and
-- within the buffer.
pub skip_loop-Ends :
    (buf : List ℕ) (start : ℕ)
    → (r : Outcome WireError ℕ) × (skip_loop skip_fuel buf (skip_from start) ≡ some r)
      × Ends buf start r
skip_loop-Ends buf start =
    skip_loop-Ending skip_fuel buf start (skip_from start) (Walking-skip_from buf start)
      (omega arith)

pub skip_name-Ends : (buf : List ℕ) (start : ℕ) → Ends buf start (skip_name buf start)
unfolding skip_name
skip_name-Ends buf start = let (r, e, g) = skip_loop-Ends buf start in rw e g
