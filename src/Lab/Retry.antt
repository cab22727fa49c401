-- ===== src/Lab/Retry.antt =====
-- A call of ops_sandbox/app.py whose response was lost, made again with the same key.
use shou_ba_shou_jiaoxue_ai.Prelude.{
  ℕ, ◌≡◌, refl, sym, ap, ◌∙◌, subst, inl, inr, Bool, true, false, ◌&&◌, some, List, [], ◌∷◌, arith,
  ◌==◌, if◌then◌else◌, ==_refl,
}
use shou_ba_shou_jiaoxue_ai.Result.{ok, err, guard, ◌>>◌, http_exception}
use shou_ba_shou_jiaoxue_ai.Store.Table.{find}
use shou_ba_shou_jiaoxue_ai.Store.Table.Laws.{find-insert}
use shou_ba_shou_jiaoxue_ai.Lab.Service.{
  Held, Tables, Settings, Call, Admitted, replay, admit, transact, replay_held, commit, answered,
  invoke_tool, held_key, skipped,
}
use shou_ba_shou_jiaoxue_ai.Lab.Uses.{IsCharged, invoke_tool-IsCharged, after_calls}

-- The answer that the key has is kept.
abbrev Keeps : Held → Tables → Type 0
Keeps h t = find held_key h.key t.idempotency ≡ some h

charged-Keeps :
    (c : Settings) (now : ℕ) (q : Call) (t t' : Tables) (h : Held)
    → Keeps h t
    → IsCharged c now q t t'
    → Keeps h t'
unfolding commit
charged-Keeps c now q t t' h k p =
    ap (λ (x : Tables). find held_key h.key x.idempotency) p.tables
    ∙ ground (
      arith,
      k,
      find-insert held_key h.key
          (record {
            key = p.admitted.key;
            payload_hash = c.payload_hash p.admitted.input;
            tool_name = q.tool_name;
            response = p.applied.response;
          })
          t.idempotency,
    )

invoke_tool-Keeps :
    (c : Settings) (now : ℕ) (q : Call) (t : Tables) (h : Held)
    → Keeps h t
    → Keeps h (invoke_tool c now q t).1
invoke_tool-Keeps c now q t h k = elim (invoke_tool-IsCharged c now q t) [
  | inl (same, _) ↦ subst (Keeps h) (sym same) k
  | inr (p, _) ↦ charged-Keeps c now q t (invoke_tool c now q t).1 h k p
]

after_calls-Keeps :
    (c : Settings) (t : Tables) (h : Held) (qs : List (ℕ × Call))
    → Keeps h t
    → Keeps h (after_calls c t qs)
unfolding after_calls
after_calls-Keeps c t h [] k = k
after_calls-Keeps c t h ((now, q) ∷ qs) k =
    after_calls-Keeps c (invoke_tool c now q t).1 h qs (invoke_tool-Keeps c now q t h k)

-- The row that a charged call leaves.
abbrev pub held_by :
    {c : Settings} {now : ℕ} {q : Call} {t t' : Tables} → IsCharged c now q t t' → Held
held_by {c} {q = q} p = record {
  key = p.admitted.key;
  payload_hash = c.payload_hash p.admitted.input;
  tool_name = q.tool_name;
  response = p.applied.response;
}

charged-held :
    (c : Settings) (now : ℕ) (q : Call) (t t' : Tables) (p : IsCharged c now q t t')
    → Keeps (held_by p) t'
unfolding commit
charged-held c now q t t' p =
    ap (λ (x : Tables). find held_key p.admitted.key x.idempotency) p.tables
    ∙ ground (
      arith,
      p.fresh,
      ==_refl p.admitted.key,
      find-insert held_key p.admitted.key (held_by p) t.idempotency,
    )

-- When a call has been charged, a later call that is admitted with the same key changes nothing, after any
-- further calls and even when the first answer was lost. For the same tool and input it returns the first
-- answer as skipped; for another tool or input it is refused with status 409.
pub retry_once :
    (c : Settings) (now later : ℕ) (q again : Call) (t t' : Tables) (qs : List (ℕ × Call))
    (p : IsCharged c now q t t') (a : Admitted)
    → admit c later again ≡ ok a
    → a.key ≡ p.admitted.key
    → invoke_tool c later again (after_calls c t' qs) ≡ (
      if c.payload_hash p.admitted.input == c.payload_hash a.input && q.tool_name == again.tool_name
          then ok (skipped p.applied.response)
          else err (http_exception 409 "idempotency key was already used for different input"),
      after_calls c t' qs,
    )
unfolding invoke_tool transact replay_held
retry_once c now later q again t t' qs p a v k =
    rw
      (
        v,
        k,
        after_calls-Keeps c t' (held_by p) qs (charged-held c now q t t' p),
        invoke_tool,
        transact,
      )
      (go (
        c.payload_hash p.admitted.input == c.payload_hash a.input
        && q.tool_name == again.tool_name))
  where
    go :
        (b : Bool)
        → answered c again (after_calls c t' qs) (
            guard b (http_exception 409 "idempotency key was already used for different input")
            >> ok (replay (skipped p.applied.response)))
          ≡ (
            if b
                then ok (skipped p.applied.response)
                else err
                    (http_exception 409 "idempotency key was already used for different input"),
            after_calls c t' qs,
          )
    go true = refl
    go false = refl
