-- ===== src/Loop/Limit.antt =====
-- How many packets the capture loop of src/cha.c delivers.
use libopenvizsla.Prelude.{
  ℕ, zero, suc, ◌+◌, ◌<◌, ◌≡◌, refl, sym, ap, ◌∙◌, ltb, lt→ltb, leb, Bool, true, false,
  if◌then◌else◌, some, [], ◌∷◌, List, length, take, arith, ◌^◌, not, ◌&&◌, ◌-◌,
}
use mathlib.Core.Path.{subst}
use libopenvizsla.Decoder.State.{Packet, has_flag, ov_flags_hf0_last, to_int, is_negative}
use libopenvizsla.Loop.State.{running, count_limit, is_running, Control}
use libopenvizsla.Loop.Callbacks.{called, call_user, cha_loop_packet_callback}

-- No packet is marked as the last of the stream.
abbrev pub AreOngoing : List Packet → Type 0
AreOngoing [] = Unit
AreOngoing (p ∷ ps) = (has_flag p.flags ov_flags_hf0_last ≡ false) × AreOngoing ps

module _ {V : Type 0} where
  -- The packets that the decoder hands to the loop, one after the other.
  unfoldable pub deliver_all : List Packet → Control V → Control V
  deliver_all [] c = c
  deliver_all (p ∷ ps) c = deliver_all ps (cha_loop_packet_callback p c)

  -- The program's callback on the packets.
  abbrev pub fed : (Packet → V → V × Bool) → List Packet → V → V
  fed f [] v = v
  fed f (p ∷ ps) v = fed f ps (f p v).0

  abbrev pub NeverBreaks : (Packet → V → V × Bool) → Type 0
  NeverBreaks f = (p : Packet) (v : V) → (f p v).1 ≡ false

  still_lem : (ps : List Packet) (c : Control V) → is_running c.state ≡ false → deliver_all ps c ≡ c
  unfolding deliver_all cha_loop_packet_callback
  still_lem [] c h = refl
  still_lem (p ∷ ps) c h = rw h (still_lem ps c h)

  called_lem :
      (r : V × Bool) (c : Control V) → r.1 ≡ false → called r c ≡ record c { user_data = r.0 }
  unfolding called
  called_lem (v, breaks) c h = rw h

  -- A running loop that calls `f`.
  abbrev pub calling : (Packet → V → V × Bool) → Control V → Control V
  calling f c = record c { callback = some f; state = running }

  abbrev pub after_packet : (Packet → V → V × Bool) → Packet → Control V → Control V
  after_packet f p c = record c {
    callback = some f;
    user_data = (f p c.user_data).0;
    count = to_int (c.count + 1);
    state = if not (is_negative c.count) && leb c.max_count c.count then count_limit else running;
  }

  one_packet :
      (f : Packet → V → V × Bool) (p : Packet) (c : Control V)
      → NeverBreaks f
      → has_flag p.flags ov_flags_hf0_last ≡ false
      → ltb 0 c.max_count ≡ true
      → cha_loop_packet_callback p (calling f c) ≡ after_packet f p c
  unfolding cha_loop_packet_callback call_user
  one_packet f p c quiet ongoing pos =
      rw (called_lem (f p c.user_data) (calling f c) (quiet p c.user_data), ongoing, pos)

  -- What a run over the packets leaves, when `left` more may be counted before the one at which the
  -- loop stops.
  abbrev pub IsLimited : (Packet → V → V × Bool) → List Packet → V → ℕ → Control V → Type 0
  IsLimited f ps v left c =
      (c.user_data ≡ fed f (take (suc left) ps) v)
      × (c.state ≡ (if ltb left (length ps) then count_limit else running))

  limit_lem :
      (f : Packet → V → V × Bool) (ps : List Packet) (c : Control V) (left : ℕ)
      → NeverBreaks f
      → AreOngoing ps
      → 0 < c.max_count
      → c.count + left ≡ c.max_count
      → c.max_count < 2 ^ 31 - 1
      → IsLimited f ps c.user_data left (deliver_all ps (calling f c))
  unfolding deliver_all
  limit_lem f [] c left quiet ongoing pos e small = (refl, ground arith)
  limit_lem f (p ∷ ps) c zero quiet ongoing pos e small =
      let stop : (not (is_negative c.count) && leb c.max_count c.count) ≡ true = ground arith in
      let c' = record c {
        callback = some f;
        user_data = (f p c.user_data).0;
        count = to_int (c.count + 1);
        state = count_limit;
      } in
      let first : cha_loop_packet_callback p (calling f c) ≡ c' =
        one_packet f p c quiet ongoing.0 (lt→ltb 0 c.max_count pos) ∙ rw stop refl in
      subst (IsLimited f (p ∷ ps) c.user_data 0)
        (sym (ap (deliver_all ps) first ∙ still_lem ps c' refl)) (refl, ground arith)
  limit_lem f (p ∷ ps) c (suc left) quiet ongoing pos e small =
      let on : (not (is_negative c.count) && leb c.max_count c.count) ≡ false = ground arith in
      let counted : to_int (c.count + 1) ≡ c.count + 1 = omega arith in
      let c' = record c { user_data = (f p c.user_data).0; count = c.count + 1 } in
      let first : cha_loop_packet_callback p (calling f c) ≡ calling f c' =
        one_packet f p c quiet ongoing.0 (lt→ltb 0 c.max_count pos) ∙ rw (on, counted) refl in
      let rest = limit_lem f ps c' left quiet ongoing.1 pos (omega arith) small in
      subst (IsLimited f (p ∷ ps) c.user_data (suc left)) (sym (ap (deliver_all ps) first))
        (rest.0, rest.1 ∙ ground arith)

  -- A run of a loop with a limit of `max_count` packets, less than INT_MAX, calls the program's callback, which does not
  -- break off, on the first `max_count + 1` packets of a stream that does not end, in order, and on
  -- no other; it stops by the limit exactly if there are more than `max_count` packets.
  pub deliver_all-limit :
      (f : Packet → V → V × Bool) (ps : List Packet) (c : Control V)
      → NeverBreaks f
      → AreOngoing ps
      → 0 < c.max_count
      → c.max_count < 2 ^ 31 - 1
      → c.count ≡ 0
      → IsLimited f ps c.user_data c.max_count (deliver_all ps (calling f c))
  deliver_all-limit f ps c quiet ongoing pos small e =
      limit_lem f ps c c.max_count quiet ongoing pos (omega arith) small
