-- ===== src/Hidraw/Init.antt =====
-- src/gamepad.cpp, `send_init`: what reaches the controller.
use mathlib.Core.List.{append-nil, append_assoc}
use flydigi_vader.Base.{
  ℕ, zero, suc, ◌≤◌, ◌≡◌, refl, sym, ap, ◌∙◌, Bool, true, false, List, [], ◌∷◌, ◌++◌, map, take,
  length, arith, inl, inr, Bool-cases,
}
use flydigi_vader.Hidraw.{
  Hidraw, packet, write, write_next, send_cmd, send_cmds, send_init, drain_buffer, cmd_01, cmd_a1,
  cmd_02, cmd_04,
}

-- The first `count` of the commands went out, each once and in order; all of them where `ok`.
pub record SentPrefix (cmds : List (List ℕ)) (before after : List (List ℕ)) (ok : Bool)
    : Type 0 where
  pub count : ℕ
  pub fits : count ≤ length cmds
  pub sent : after ≡ before ++ take count (map packet cmds)
  pub complete : ok ≡ true → count ≡ length cmds

send_cmd_ok :
    (cmd : List ℕ) (h : Hidraw)
    → (send_cmd cmd h).1 ≡ true
    → (send_cmd cmd h).0.sent ≡ h.sent ++ packet cmd ∷ []
unfolding send_cmd write
send_cmd_ok cmd h e = ground arith

send_cmd_failed :
    (cmd : List ℕ) (h : Hidraw)
    → (send_cmd cmd h).1 ≡ false
    → SentPrefix (cmd ∷ []) h.sent (send_cmd cmd h).0.sent false
unfolding send_cmd write
send_cmd_failed cmd h e = elim (Bool-cases (write_next h.accepts).0) [
  | inl ok ↦ record {
    count = 1;
    fits = omega arith;
    sent = rw ok refl;
    complete = λ f. ground arith;
  }
  | inr bad ↦ record {
    count = 0;
    fits = omega arith;
    sent = rw bad (sym (append-nil h.sent));
    complete = λ f. ground arith;
  }
]

take_first :
    (count : ℕ) (pkt : List ℕ) (rest : List (List ℕ))
    → count ≤ 1
    → take count (pkt ∷ []) ≡ take count (pkt ∷ rest)
take_first zero pkt rest h = refl
take_first (suc zero) pkt rest h = refl
take_first (suc (suc n)) pkt rest h = absurd (omega arith)

first :
    (cmd : List ℕ) (rest before after : List (List ℕ))
    → SentPrefix (cmd ∷ []) before after false
    → SentPrefix (cmd ∷ rest) before after false
first cmd rest before after p = record {
  count = p.count;
  fits = let h = p.fits in omega arith;
  sent = p.sent ∙ ap (◌++◌ before) (take_first p.count (packet cmd) (map packet rest) p.fits);
  complete = λ f. ground arith;
}

then_rest :
    (cmd : List ℕ) (rest : List (List ℕ)) (before middle after : List (List ℕ)) (ok : Bool)
    → middle ≡ before ++ packet cmd ∷ []
    → SentPrefix rest middle after ok
    → SentPrefix (cmd ∷ rest) before after ok
then_rest cmd rest before middle after ok e p = record {
  count = suc p.count;
  fits = let h = p.fits in omega arith;
  sent =
      p.sent
      ∙ ap (λ m. m ++ take p.count (map packet rest)) e
      ∙ append_assoc before (packet cmd ∷ []) (take p.count (map packet rest));
  complete = λ f. ap suc (p.complete f);
}

send_cmds-SentPrefix :
    (cmds : List (List ℕ)) (h : Hidraw)
    → SentPrefix cmds h.sent (send_cmds cmds h).0.sent (send_cmds cmds h).1
unfolding send_cmds
send_cmds-SentPrefix [] h = record {
  count = 0;
  fits = omega arith;
  sent = sym (append-nil h.sent);
  complete = λ f. refl;
}
send_cmds-SentPrefix (cmd ∷ rest) h = elim (Bool-cases (send_cmd cmd h).1) [
  | inl ok ↦ rw ok (
      then_rest cmd rest h.sent _ _ _ (send_cmd_ok cmd h ok)
        (send_cmds-SentPrefix rest (send_cmd cmd h).0))
  | inr bad ↦ rw bad (first cmd rest h.sent _ (send_cmd_failed cmd h bad))
]

-- However the controller answers, the start-up sends the packets of its four commands in order and
-- each at most once; it succeeds only if all four went out.
pub send_init-SentPrefix :
    (h : Hidraw)
    → SentPrefix
        (cmd_01 ∷ cmd_a1 ∷ cmd_02 ∷ cmd_04 ∷ [])
        h.sent
        (send_init h).0.sent
        (send_init h).1
unfolding send_init drain_buffer
send_init-SentPrefix h =
    send_cmds-SentPrefix (cmd_01 ∷ cmd_a1 ∷ cmd_02 ∷ cmd_04 ∷ []) (drain_buffer h)
