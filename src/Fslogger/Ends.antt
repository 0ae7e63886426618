-- ===== src/Fslogger/Ends.antt =====
-- 11-25/fslogger.c: the decoder always moves on, and every read is decoded in finitely many steps.
use mac_os_x_internal.Prelude.{
  ℕ, zero, suc, ◌+◌, ◌≤◌, ◌<◌, ◌≢◌, ◌≡◌, some, Option-cases, inl, inr, arith, Bool, List, [], ◌∷◌,
  ℤ, pos, negsuc,
}
use mac_os_x_internal.Fslogger.{
  Codes, Buffer, Place, Item, Status, finished, exited, undefined, out_of_fuel, process_args,
  process_events, event_processing, and_then, show_data,
}

process_args-le :
    (codes : Codes) (buf : Buffer) (ret rounds : ℕ) (p : Place) (q : Place)
    → (process_args codes buf ret rounds p).1 ≡ some q
    → p.off ≤ q.off
unfolding process_args
process_args-le codes buf ret zero p q e = ground arith
process_args-le codes buf ret (suc rounds) p q e = ground (
  arith,
  process_args-le codes buf ret rounds
      (record {
        off = p.off + (4 + buf.u16_at (p.off + 2));
        vnode = (show_data codes buf p.off p.vnode).1;
      })
      q,
)

process_events_ends :
    (codes : Codes) (buf : Buffer) (ret fuel : ℕ) (p : Place)
    → 0 < fuel
    → ret < p.off + fuel
    → (process_events codes buf ret fuel p).1 ≢ out_of_fuel
unfolding process_events
process_events_ends codes buf ret zero p some_fuel enough = omega arith
process_events_ends codes buf ret (suc fuel) p some_fuel enough =
    let at : Place = record p { off = p.off + 8 } in
    elim (Option-cases (process_args codes buf ret (suc codes.max_args) at).1) [
      | inl nothing ↦ ground (
        arith,
        nothing,
        process_events_ends codes buf ret fuel (record p { off = p.off + 8 + 2 }),
      )
      | inr (q, e) ↦ ground (
        arith,
        e,
        process_events_ends codes buf ret fuel (record p { off = p.off + 8 + 2 }),
        process_events_ends codes buf ret fuel q,
        process_args-le codes buf ret (suc codes.max_args) at q e,
      )
    ]

and_then_ends :
    (r : List Item × Status) (next : Bool → List Item × Status)
    → r.1 ≢ out_of_fuel
    → ((v : Bool) → (next v).1 ≢ out_of_fuel)
    → (and_then r next).1 ≢ out_of_fuel
unfolding and_then
and_then_ends (items, finished v) next r_ends next_ends = next_ends v
and_then_ends (items, exited n) next r_ends next_ends = r_ends
and_then_ends (items, undefined) next r_ends next_ends = r_ends
and_then_ends (items, out_of_fuel) next r_ends next_ends = r_ends

-- Every stream of reads, of whatever bytes, is decoded without running out of fuel: each round of the loop over the
-- events moves on by 8 bytes at least, so one round for each byte of the read and one more are enough.
pub event_processing_ends :
    (codes : Codes) (reads : List (ℤ × Buffer)) (vnode : Bool)
    → (event_processing codes reads vnode).1 ≢ out_of_fuel
unfolding event_processing
event_processing_ends codes [] vnode = ground arith
event_processing_ends codes ((negsuc n, buf) ∷ reads) vnode =
    event_processing_ends codes reads vnode
event_processing_ends codes ((pos ret, buf) ∷ reads) vnode =
    and_then_ends (process_events codes buf ret (suc ret) (record { off = 0; vnode = vnode }))
      (λ v. event_processing codes reads v)
      (process_events_ends codes buf ret (suc ret) (record { off = 0; vnode = vnode }) (omega arith)
        (omega arith))
      (λ v. event_processing_ends codes reads v)
