-- ===== src/Duplex/BackendFramer/Write.antt =====
-- src/duplex/backend-framer.ts: `write` against the stream read byte by byte.
use prisma_pglite_bridge.Prelude.{
  ℕ, zero, suc, ◌+◌, ◌-◌, ◌*◌, ◌<◌, ltb, true, false, Option, none, some, List, [], ◌∷◌, ◌++◌,
  length, Result, ok, ◌>>=◌, >>=-eq-ok, ◌≡◌, refl, ap, ◌∙◌, sym, arith, inl, inr, Bool-cases,
  ltb→ge, drop, concat, ltb→lt, drop_all, suc-ne-zero,
}
use prisma_pglite_bridge.Duplex.Bytes.{Bytes}
use prisma_pglite_bridge.Duplex.BackendFramer.{
  Framer, Event, FramerError, Cursor, flush_passthrough, step, write_loop, write,
}
use prisma_pglite_bridge.Duplex.BackendFramer.Steps.{
  Output, ◌+out◌, feed_all, out_silent, output, silent_out, output-append, out_assoc, feed_all-ok,
}
use prisma_pglite_bridge.Duplex.BackendFramer.Invariant.{
  IsSound, idle, in_header, in_payload, feed_all-IsSound,
}
use prisma_pglite_bridge.Duplex.BackendFramer.Progress.{
  pend, Passes, output-flush, Steps, header_step, payload_step,
}
use prisma_pglite_bridge.Duplex.BackendFramer.Start.{start-Steps}

Passes-none :
    (p : Option ℕ) (offset : ℕ) (f : Framer) {kind : ℕ}
    → f.message_type ≡ some kind
    → Passes p offset f
    → p ≡ none
Passes-none none offset f m v = refl
Passes-none (some start) offset f m v = absurd (cc (sym m ∙ v.1))

step-Steps :
    (bytes : Bytes) (c : Cursor) {g : Framer} {o : Output}
    → IsSound c.framer
    → Passes c.passthrough c.offset c.framer
    → c.offset < length bytes
    → feed_all c.framer (drop c.offset bytes) ≡ ok (g, o)
    → Steps bytes c
step-Steps bytes c (idle v) p more e = start-Steps bytes c v more p e
step-Steps bytes c (in_header kind v) p more e =
    header_step bytes c kind more (Passes-none c.passthrough c.offset c.framer v.kind_is p) v e
step-Steps bytes c (in_payload kind v) p more e =
    payload_step bytes c kind more (Passes-none c.passthrough c.offset c.framer v.kind_is p) v

abbrev shown_at : Bytes → Cursor → Output
shown_at bytes c = output c.events +out pend bytes c.passthrough c.offset

write_loop_over :
    (fuel : ℕ) (bytes : Bytes) (c : Cursor)
    → ltb c.offset (length bytes) ≡ false
    → write_loop (suc fuel) bytes c
      ≡ ok (c.framer, c.events ++ flush_passthrough bytes c.passthrough c.offset)
unfolding write_loop
write_loop_over fuel bytes c h = rw (h, write_loop)

write_loop_more :
    (fuel : ℕ) (bytes : Bytes) (c : Cursor)
    → ltb c.offset (length bytes) ≡ true
    → write_loop (suc fuel) bytes c ≡ (step bytes c >>= write_loop fuel bytes)
unfolding write_loop
write_loop_more fuel bytes c h = rw (h, write_loop)

write_loop_lem :
    (fuel : ℕ) (bytes : Bytes) (c : Cursor) {g : Framer} {o : Output}
    → IsSound c.framer
    → Passes c.passthrough c.offset c.framer
    → length bytes - c.offset < fuel
    → feed_all c.framer (drop c.offset bytes) ≡ ok (g, o)
    → (events : List Event) × (write_loop fuel bytes c ≡ ok (g, events))
      × (output events ≡ shown_at bytes c +out o)
unfolding write_loop feed_all
write_loop_lem zero bytes c s p h e = absurd (omega arith)
write_loop_lem (suc fuel) bytes c {g} {o} s p h e =
    elim (Bool-cases (ltb c.offset (length bytes))) [
      | inr over ↦
          let e' =
            ap (feed_all c.framer)
              (sym (drop_all c.offset bytes (ltb→ge c.offset (length bytes) over)))
            ∙ e in
          (
            c.events ++ flush_passthrough bytes c.passthrough c.offset,
            write_loop_over fuel bytes c over
                ∙ (ap (λ x. ok (x, c.events ++ flush_passthrough bytes c.passthrough c.offset))
                    (cc e')),
            output-append c.events (flush_passthrough bytes c.passthrough c.offset)
                ∙ ap (λ x. output c.events +out x) (output-flush bytes c.passthrough c.offset)
                ∙ sym (out_silent (shown_at bytes c))
                ∙ ap (λ x. shown_at bytes c +out x) (cc e'),
          )
      | inl more ↦
          let (d, stepped, v) = step-Steps bytes c s p (ltb→lt c.offset (length bytes) more) e in
          let (g', q, o', first, second, sum) =
            feed_all-ok c.framer v.part (drop d.offset bytes)
              (ap (feed_all c.framer) (sym v.split) ∙ e) in
          let same : d.framer ≡ g' = cc (sym v.reads ∙ first) in
          let seen : v.seen ≡ q = cc (sym v.reads ∙ first) in
          let sound = feed_all-IsSound c.framer v.part s v.reads in
          let (events, done, shown) =
            write_loop_lem fuel bytes d sound v.passes (omega (arith, v.moves, v.inside))
              (ap (λ x. feed_all x (drop d.offset bytes)) same ∙ second) in
          (
            events,
            write_loop_more fuel bytes c more ∙ rw stepped done,
            shown
                ∙ ap (λ x. x +out o') v.shown
                ∙ out_assoc (shown_at bytes c) v.seen o'
                ∙ ap (λ x. shown_at bytes c +out (x +out o')) seen
                ∙ ap (λ x. shown_at bytes c +out x) (sym sum),
          )
    ]

-- From a sound state `write` takes a chunk as the byte-wise reading takes its bytes: to the same
-- state, with the same bytes, transaction states and number of errors for the client, given that
-- this reading does not refuse them.
pub write_lem :
    (f : Framer) (bytes : Bytes) {g : Framer} {o : Output}
    → IsSound f
    → feed_all f bytes ≡ ok (g, o)
    → (events : List Event) × (write f bytes ≡ ok (g, events)) × (output events ≡ o)
unfolding write feed_all
write_lem f [] s e = ([], cc e, cc e)
write_lem f (b ∷ bs) {o = o} s e =
    let start : Cursor = record { framer = f; offset = 0; passthrough = none; events = [] } in
    let (events, done, shown) =
      write_loop_lem (2 * suc (length bs) + 2) (b ∷ bs) start s tt (omega arith) e in
    (events, rw (suc-ne-zero (length bs)) done, shown ∙ silent_out o)

-- The chunks of a response, written one after the other.
unfoldable pub write_all : Framer → List Bytes → Result FramerError (Framer × List Event)
write_all f [] = ok (f, [])
write_all f (bytes ∷ chunks) = do
  r ← write f bytes
  rest ← write_all r.0 chunks
  ok (rest.0, r.1 ++ rest.1)

-- However a response is cut into chunks, writing the chunks in turn leads from a sound state to
-- the state, the bytes, the transaction states and the number of errors that the byte-wise reading
-- of the whole response gives, given that this reading does not refuse it.
pub write_all_lem :
    (chunks : List Bytes) (f : Framer) {g : Framer} {o : Output}
    → IsSound f
    → feed_all f (concat chunks) ≡ ok (g, o)
    → (events : List Event) × (write_all f chunks ≡ ok (g, events)) × (output events ≡ o)
unfolding write_all
write_all_lem [] f s e = ([], (unfold feed_all in cc e), (unfold feed_all in cc e))
write_all_lem (bytes ∷ chunks) f s e =
    let (g', q, q', first, second, sum) = feed_all-ok f bytes (concat chunks) e in
    let (es, done, shown) = write_lem f bytes s first in
    let (es', done', shown') = write_all_lem chunks g' (feed_all-IsSound f bytes s first) second in
    (es ++ es', rw (done, done'), output-append es es' ∙ rw (shown, shown') (sym sum))

ok-pair :
    {f g : Framer} {xs ys : List Event}
    → ◌≡◌ {A = Result FramerError (Framer × List Event)} (ok (f, xs)) (ok (g, ys))
    → (f ≡ g) × (xs ≡ ys)
ok-pair e = (cc e, cc e)

-- A run without an error, chunk by chunk.
pub write_all-nil :
    (f : Framer) {g : Framer} {es : List Event} → write_all f [] ≡ ok (g, es) → (f ≡ g) × (es ≡ [])
unfolding write_all
write_all-nil f e = (ground arith, ground arith)

pub write_all-cons :
    (f : Framer) (bytes : Bytes) (chunks : List Bytes) {g : Framer} {es : List Event}
    → write_all f (bytes ∷ chunks) ≡ ok (g, es)
    → (f1 : Framer) × (es1 : List Event) × (es2 : List Event) × (write f bytes ≡ ok (f1, es1))
      × (write_all f1 chunks ≡ ok (g, es2))
      × (es ≡ es1 ++ es2)
unfolding write_all
write_all-cons f bytes chunks e =
    let (r, first, e1) = >>=-eq-ok (write f bytes) _ e in
    let (rest, second, e2) = >>=-eq-ok (write_all r.0 chunks) _ e1 in
    let (same, sum) = ok-pair e2 in
    (r.0, r.1, rest.1, first, second ∙ ap (λ x. ok (x, rest.1)) same, sym sum)
