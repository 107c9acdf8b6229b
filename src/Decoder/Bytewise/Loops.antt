-- ===== src/Decoder/Bytewise/Loops.antt =====
-- The loop of `packet_decoder_proc` against the reference, by induction on the fuel.
use libopenvizsla.Prelude.{
  ℕ, zero, suc, ◌+◌, ◌≤◌, ◌<◌, ◌≡◌, refl, sym, ap, ◌∙◌, ◌⊎◌, inl, inr, false, true, [], ◌∷◌, Bytes,
  length, take, drop, length-drop, take-append-drop, take-add, drop-add, arith, Bool-cases,
}
use mathlib.Core.Path.{subst}
use libopenvizsla.Decoder.State.{PacketDecoder, Step, advance, finished, refused, broken, resume}
use libopenvizsla.Decoder.Packet.{packet_step, packet_loop}
use libopenvizsla.Decoder.Valid.{IsValid, Keeps, packet_step-Keeps}
use libopenvizsla.Decoder.Bytewise.{
  ok, rejected, stuck, ◌>>=◌, feeds, is_pending, flush, packet_feed,
}
use libopenvizsla.Decoder.Bytewise.Packets.{feeds-append}
use libopenvizsla.Decoder.Bytewise.Steps.{
  width_in, Takes, packet_step-Takes, width_bounds, packet_step_pending,
}

module _ {U : Type 0} where
  -- Some bytes of `buf` lead the reference from `pd` to `middle`; the loop stops at `rest` with
  -- `pd'`, where it may have finalized a packet with no data ahead of the reference.
  pub record Reads (pd : PacketDecoder U) (buf : Bytes) (pd' : PacketDecoder U) (rest : Bytes)
      : Type 0 where
    pub used : ℕ
    pub middle : PacketDecoder U
    pub used_le : used ≤ length buf
    pub fed : feeds packet_feed pd (take used buf) ≡ ok middle
    pub rest_is : rest ≡ drop used buf
    pub ends : (pd' ≡ middle) ⊎ ((pd' ≡ flush middle) × (0 < length rest))
    pub moves : (length buf ≡ 0) ⊎ (0 < used) ⊎ ((is_pending pd ≡ true) × (is_pending pd' ≡ false))
    pub valid : IsValid pd'

  abbrev pub LoopReads : PacketDecoder U → Bytes → Step (PacketDecoder U) → Type 0
  LoopReads pd buf (advance pd' rest) = ⊥
  LoopReads pd buf (finished pd' rest) = Reads pd buf pd' rest
  LoopReads pd buf (refused pd') = feeds packet_feed pd buf ≡ rejected pd'
  LoopReads pd buf (broken w) = feeds packet_feed pd buf ≡ stuck w

  Reads-nothing : (pd : PacketDecoder U) → IsValid pd → Reads pd [] pd []
  Reads-nothing pd v = record {
    used = 0;
    middle = pd;
    used_le = omega arith;
    fed = refl;
    rest_is = refl;
    ends = inl refl;
    moves = inl refl;
    valid = v;
  }

  -- What leads to `pd'` in `n` bytes and goes on as the reference does.
  feeds-after :
      (pd pd' : PacketDecoder U) (n k : ℕ) (buf : Bytes)
      → feeds packet_feed pd (take n buf) ≡ ok pd'
      → feeds packet_feed pd (take (n + k) buf) ≡ feeds packet_feed pd' (take k (drop n buf))
  feeds-after pd pd' n k buf f =
      ap (feeds packet_feed pd) (take-add n k buf)
      ∙ feeds-append packet_feed pd (take n buf) (take k (drop n buf))
      ∙ ap (λ m. m >>= λ t. feeds packet_feed t (take k (drop n buf))) f

  feeds-drop :
      (pd pd' : PacketDecoder U) (n : ℕ) (buf : Bytes)
      → feeds packet_feed pd (take n buf) ≡ ok pd'
      → feeds packet_feed pd buf ≡ feeds packet_feed pd' (drop n buf)
  feeds-drop pd pd' n buf f =
      ap (feeds packet_feed pd) (sym (take-append-drop n buf))
      ∙ feeds-append packet_feed pd (take n buf) (drop n buf)
      ∙ ap (λ m. m >>= λ t. feeds packet_feed t (drop n buf)) f

  -- A step and then the loop.
  LoopReads-after :
      (pd pd' : PacketDecoder U) (n : ℕ) (buf : Bytes) (st : Step (PacketDecoder U))
      → 0 < n
      → n ≤ length buf
      → feeds packet_feed pd (take n buf) ≡ ok pd'
      → LoopReads pd' (drop n buf) st
      → LoopReads pd buf st
  LoopReads-after pd pd' n buf (finished pd'' rest) h l f r = record {
    used = n + r.used;
    middle = r.middle;
    used_le = omega (arith, r.used_le, length-drop n buf);
    fed = feeds-after pd pd' n r.used buf f ∙ r.fed;
    rest_is = r.rest_is ∙ sym (drop-add n r.used buf);
    ends = r.ends;
    moves = inr (inl (omega arith));
    valid = r.valid;
  }
  LoopReads-after pd pd' n buf (refused pd'') h l f r = feeds-drop pd pd' n buf f ∙ r
  LoopReads-after pd pd' n buf (broken w) h l f r = feeds-drop pd pd' n buf f ∙ r
  LoopReads-after pd pd' n buf (advance pd'' rest) h l f r = r

  resume-LoopReads :
      (fuel : ℕ) (pd : PacketDecoder U) (n : ℕ) (buf : Bytes) (st : Step (PacketDecoder U))
      → 0 < n
      → n ≤ length buf
      → Takes n pd buf st
      → Keeps st
      → ((pd' : PacketDecoder U)
          → IsValid pd'
          → LoopReads pd' (drop n buf) (packet_loop fuel pd' (drop n buf)))
      → LoopReads pd buf (resume (packet_loop fuel) st)
  resume-LoopReads fuel pd n buf (advance pd' rest) h l t k ih =
      rw t.1 (LoopReads-after pd pd' n buf (packet_loop fuel pd' (drop n buf)) h l t.0 (ih pd' k))
  resume-LoopReads fuel pd n buf (finished pd' rest) h l t k ih = record {
    used = n;
    middle = pd';
    used_le = l;
    fed = t.0;
    rest_is = t.1;
    ends = inl refl;
    moves = inr (inl h);
    valid = k;
  }
  resume-LoopReads fuel pd n buf (refused pd') h l t k ih = t
  resume-LoopReads fuel pd n buf (broken w) h l t k ih = t

  Reads-flush :
      (pd : PacketDecoder U) (b : ℕ) (bs : Bytes)
      → is_pending pd ≡ true
      → IsValid pd
      → Reads pd (b ∷ bs) (flush pd) (b ∷ bs)
  Reads-flush pd b bs p v = record {
    used = 0;
    middle = pd;
    used_le = omega arith;
    fed = refl;
    rest_is = refl;
    ends = inr (refl, omega arith);
    moves = inr (inr (p, ground arith));
    valid = ground arith;
  }

  pub packet_loop-LoopReads :
      (fuel : ℕ) (pd : PacketDecoder U) (buf : Bytes)
      → IsValid pd
      → length buf ≤ fuel
      → LoopReads pd buf (packet_loop fuel pd buf)
  unfolding packet_loop
  packet_loop-LoopReads zero pd [] v h = Reads-nothing pd v
  packet_loop-LoopReads zero pd (b ∷ bs) v h = absurd (omega arith)
  packet_loop-LoopReads (suc fuel) pd [] v h = Reads-nothing pd v
  packet_loop-LoopReads (suc fuel) pd (b ∷ bs) v h = elim (Bool-cases (is_pending pd)) [
    | inl p ↦
        subst (λ st. LoopReads pd (b ∷ bs) (resume (packet_loop fuel) st))
          (sym (packet_step_pending pd b bs p v)) (Reads-flush pd b bs p v)
    | inr p ↦
        let w = width_in pd.state pd (length (b ∷ bs)) in
        let bounds = width_bounds pd (length (b ∷ bs)) p v (omega arith) in
        resume-LoopReads fuel pd w (b ∷ bs) (packet_step pd b bs) bounds.0 bounds.1
          (packet_step-Takes pd b bs p v) (packet_step-Keeps pd b bs v)
          (λ pd' v'.
            packet_loop-LoopReads fuel pd' (drop w (b ∷ bs)) v'
              (omega (arith, bounds, length-drop w (b ∷ bs))))
  ]
