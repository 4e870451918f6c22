-- ===== src/Dash/Ids.antt =====
-- The ids that src/dash/fft.cpp and src/dash/zip.cpp give out, and the contexts that they send.
use ece506scheduler.Base.{
  ℕ, zero, suc, ◌+◌, ◌%◌, ◌^◌, ◌<◌, ℤ, ◌≡◌, refl, ◌∙◌, ap, Option, [], none, Text, text_key,
  to_string, lookup, lookup-emplace_new, arith,
}
use ece506scheduler.Task.{ResourceKind}
use ece506scheduler.Dash.Execute.{next_id, fft_start, zip_start, Operation, make_task}
use ece506scheduler.Device.Context.{
  context_from_task, address, to_string-nonempty, stoull-to_string,
}

-- The id that a file's next_id gives in its call number `k`, counted from 0.
pub id_of_call : ℕ → ℕ → ℕ
id_of_call start zero = (next_id start).0
id_of_call start (suc k) = id_of_call (next_id start).1 k

-- One file's counter does not repeat an id before it wraps.
pub id_of_call_lem : (start k : ℕ) → start + k < 2 ^ 64 → id_of_call start k ≡ start + k
unfolding id_of_call next_id
id_of_call_lem start zero h = omega arith
id_of_call_lem start (suc k) h =
    let e : (start + 1) % 2 ^ 64 ≡ start + 1 = omega arith in
    ap (λ c. id_of_call c k) e ∙ id_of_call_lem (start + 1) k (omega arith) ∙ omega arith

-- But the two files' counters overlap: the id of call 1000 + k of fft_execute's counter, for k below
-- 2^63, is that of call k of zip_execute's, both counted from 0.
pub fft_ids_collide :
    (k : ℕ) → k < 2 ^ 63 → id_of_call fft_start (1000 + k) ≡ id_of_call zip_start k
fft_ids_collide k h =
    id_of_call_lem fft_start (1000 + k) (omega arith)
    ∙ omega (arith, id_of_call_lem zip_start k (omega arith))

lookup-nil : (k : Text) → ◌≡◌ {A = Option Text} (lookup k []) none
unfolding lookup
lookup-nil k = refl

-- The accelerator reads the context's address, of 64 bits, back from the task.
pub context_from_task-make_task :
    (operation : Operation) (id ctx : ℕ) (kind : ResourceKind) (now : ℤ)
    → ctx < 2 ^ 64
    → context_from_task operation.key (make_task operation id kind ctx now) ≡ address ctx
unfolding context_from_task make_task
context_from_task-make_task operation id ctx kind now h = rw (
  lookup-emplace_new operation.key (to_string ctx) [] (lookup-nil operation.key),
  context_from_task,
  to_string-nonempty ctx,
  stoull-to_string ctx h,
)
