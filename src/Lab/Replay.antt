-- ===== src/Lab/Replay.antt =====
-- A key of the client in backend/app/tools.py acts once.
use shou_ba_shou_jiaoxue_ai.Prelude.{
  String, ◌≡◌, refl, ap, ◌∙◌, inl, inr, false, Option, none, some, List, [], ◌∷◌, arith, ◌==◌,
  ==_iff, ==_refl, Bool-cases, Option-cases,
}
use shou_ba_shou_jiaoxue_ai.Value.{Fields, get}
use shou_ba_shou_jiaoxue_ai.Value.{holds_text}
use shou_ba_shou_jiaoxue_ai.Result.{Result, ok, err}
use shou_ba_shou_jiaoxue_ai.Store.Table.{find, insert}
use shou_ba_shou_jiaoxue_ai.Store.Table.Laws.{find-insert}
use shou_ba_shou_jiaoxue_ai.Executor.Execute.{ToolCallResponse}
use shou_ba_shou_jiaoxue_ai.Lab.Memory.{
  Experiment, Remembered, Memory, remembered_key, Invocation, invoke, invoke_fresh, remembered,
  apply, target_of, replayed, after_calls,
}

-- The answer to a key is there.
abbrev Knows : String → ToolCallResponse → Memory → Type 0
Knows key r m = find remembered_key key m.idempotency ≡ some (record { key = key; response = r })

invoke_fresh-Knows :
    (k key name : String) (r : ToolCallResponse) (payload : Fields) (m : Memory)
    (o : Option Experiment)
    → Knows k r m
    → Knows k r (invoke_fresh name payload key m o).1
unfolding invoke_fresh remembered
invoke_fresh-Knows k key name r payload m none h = h
invoke_fresh-Knows k key name r payload m (some e) h =
    elim (Bool-cases (holds_text (get payload "service") e.service)) [
      | inr n ↦ rw (n, invoke_fresh) h
      | inl y ↦ rw (y, invoke_fresh) (go (apply name payload e))
    ]
  where
    go : (o : Result ToolCallResponse × Experiment) → Knows k r (remembered key m o).1
    go (err x, e') = h
    go (ok x, e') =
        ground (
          arith,
          h,
          find-insert remembered_key k (record { key = key; response = x }) m.idempotency,
        )

invoke-Knows :
    (k : String) (r : ToolCallResponse) (c : Invocation) (m : Memory)
    → Knows k r m
    → Knows k r (invoke c.name c.payload c.key c.token c.tenant m).1
unfolding invoke
invoke-Knows k r c m h = elim (Option-cases (find remembered_key c.key m.idempotency)) [
  | inr (prior, e) ↦ rw (e, invoke) h
  | inl e ↦
      rw (e, invoke) (invoke_fresh-Knows k c.key c.name r c.payload m (target_of c.payload m) h)
]

after_calls-Knows :
    (k : String) (r : ToolCallResponse) (m : Memory) (cs : List Invocation)
    → Knows k r m
    → Knows k r (after_calls m cs)
unfolding after_calls
after_calls-Knows k r m [] h = h
after_calls-Knows k r m (c ∷ cs) h =
    after_calls-Knows k r (invoke c.name c.payload c.key c.token c.tenant m).1 cs
      (invoke-Knows k r c m h)

not_success : (s : String) → (s == "succeeded") ≡ false → s ≡ "succeeded" → ⊥
not_success s n e = ground (arith, n, ==_iff s "succeeded", e)

skipped_ne : ("skipped" == "succeeded") ≡ false
unfolding ◌==◌
skipped_ne = refl

failed_ne : ("failed" == "succeeded") ≡ false
unfolding ◌==◌
failed_ne = refl

-- Another answer than a success.
unlike :
    (a r : ToolCallResponse) (m m' : Memory)
    → ◌≡◌ {A = Result ToolCallResponse × Memory} (ok a, m) (ok r, m')
    → (a.status == "succeeded") ≡ false
    → r.status ≡ "succeeded"
    → ⊥
unlike a r m m' h n s = not_success a.status n (ground (arith, h, s))

remembered-Knows :
    (key : String) (m m' : Memory) (o : Result ToolCallResponse × Experiment) (r : ToolCallResponse)
    → find remembered_key key m.idempotency ≡ none
    → remembered key m o ≡ (ok r, m')
    → Knows key r m'
unfolding remembered
remembered-Knows key m m' (err x, e) r n h = ground (arith, h)
remembered-Knows key m m' (ok x, e) r n h =
    let same : x ≡ r = ground (arith, h) in
    let table : m'.idempotency ≡ insert (record { key = key; response = x }) m.idempotency =
      ground (arith, h) in
    ap (find remembered_key key) table
    ∙ ground (
      arith,
      n,
      same,
      ==_refl key,
      find-insert remembered_key key (record { key = key; response = x }) m.idempotency,
    )

-- A call that succeeds is remembered: a replay is not called a success.
success-Knows :
    (name : String) (payload : Fields) (key token tenant : String) (m m' : Memory)
    (r : ToolCallResponse)
    → invoke name payload key token tenant m ≡ (ok r, m')
    → r.status ≡ "succeeded"
    → Knows key r m'
unfolding invoke invoke_fresh
success-Knows name payload key token tenant m m' r h s =
    go (find remembered_key key m.idempotency) refl
  where
    fresh :
        find remembered_key key m.idempotency ≡ none
        → (o : Option Experiment) → invoke_fresh name payload key m o ≡ (ok r, m')
        → Knows key r m'
    fresh e none q = absurd (unlike _ r m m' q failed_ne s)
    fresh e (some x) q = elim (Bool-cases (holds_text (get payload "service") x.service)) [
      | inr n ↦ absurd (unlike _ r m m' (rw (n, invoke_fresh) at q) failed_ne s)
      | inl y ↦ remembered-Knows key m m' (apply name payload x) r e (rw (y, invoke_fresh) at q)
    ]

    go : (o : Option Remembered) → find remembered_key key m.idempotency ≡ o → Knows key r m'
    go (some prior) e =
        absurd (unlike (replayed prior.response) r m m' (rw (e, invoke) at h) skipped_ne s)
    go none e = fresh e (target_of payload m) (rw (e, invoke) at h)

-- After a call that succeeded, and any further calls of the client, a call with the same key does nothing
-- to the experiments, whatever its tool and its input, and returns the output of the first.
pub invoke_once :
    (name : String) (payload : Fields) (key token tenant : String) (m m' : Memory)
    (r : ToolCallResponse) (cs : List Invocation) (again : Invocation)
    → invoke name payload key token tenant m ≡ (ok r, m')
    → r.status ≡ "succeeded"
    → again.key ≡ key
    → invoke again.name again.payload again.key again.token again.tenant (after_calls m' cs)
      ≡ (ok (replayed r), after_calls m' cs)
unfolding invoke
invoke_once name payload key token tenant m m' r cs again h s k =
    let known =
      after_calls-Knows key r m' cs (success-Knows name payload key token tenant m m' r h s) in
    rw (k, known, invoke) refl
