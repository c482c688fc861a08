-- ===== src/Quorum/Safety.antt =====
-- What holds of every slot stays true as the slots take their turns.
use scoutfs.Quorum.Whole.{worker_turn-Sound}
use scoutfs.Quorum.Turn.{worker_turn}
use scoutfs.Quorum.Sound.{Sound}
use scoutfs.Quorum.Hearing.{flow_turn}
use scoutfs.Spbm.{test_bit}
use scoutfs.Quorum.Terms.{ballots, ballots-append, stays}
use scoutfs.Quorum.Leaders.{
  Cast, IsSoundNet, Sound-mono, only, put-here, put-other, sends_vote-has, test_bit-size,
  worker_start-Sound,
}
use scoutfs.Quorum.{Action, Env, Msg, Status, is_vote, max_slots}
use scoutfs.Quorum.System.{IsDelivered, IsStart, Net, Reach, put, start, step, turns}
use scoutfs.Prelude.{
  Bool, Bool-cases, List, ap, arith, inl, inr, length, subst, sym, true, ℕ, ◌++◌, ◌<◌, ◌==◌, ◌∙◌,
  ◌≡◌, ◌≤◌,
}

module _ (members : List Bool) (needed : ℕ) where
  start-IsSoundNet : (n : Net) → IsStart n → IsSoundNet members needed n
  start-IsSoundNet n s = record {
    sound = λ i member.
        let (term, timeout, e) = s.starts_as i in
        rw (e, s.undone i) (worker_start-Sound i needed term timeout (Cast n.log i));
    idle = λ i other. s.undone i;
  }

  module _ (n : Net) (env : Env) (inv : IsSoundNet members needed n) where
    delivered-Cast :
        length members ≡ max_slots
        → (m : Msg) → is_vote m.type ≡ true
        → IsDelivered members env n m
        → Cast n.log env.slot m.from m.term × (m.from < max_slots)
    delivered-Cast size m is_v d = (
      only env.slot (ballots m.from m.term (n.log m.from))
          (sends_vote-has m.from m.term env.slot (n.log m.from) (d.sent is_v))
          ((inv.sound m.from d.present).once m.term),
      subst (λ k. m.from < k) size (test_bit-size m.from members d.present),
    )

    module _ (u : Status) (more : List Action) (member : test_bit env.slot members ≡ true)
        (new : Sound env.slot needed (Cast n.log env.slot) u (n.log env.slot ++ more)) where
      abbrev after : Net
      after = record {
        status = put env.slot u n.status;
        log = put env.slot (n.log env.slot ++ more) n.log;
      }

      Cast-stays : (i j term : ℕ) → Cast n.log i j term → Cast after.log i j term
      Cast-stays i j term c = elim (Bool-cases (j == env.slot)) [
        | inl same ↦
            let e : env.slot ≡ j = ground arith in
            subst (λ k. Cast n.log i k term → Cast after.log i k term) e own c
        | inr other ↦ rw (put-other env.slot j (n.log env.slot ++ more) n.log other) c
      ]
        where
          own : Cast n.log i env.slot term → Cast after.log i env.slot term
          own d =
              ap (ballots env.slot term) (put-here env.slot (n.log env.slot ++ more) n.log)
              ∙ ballots-append env.slot term (n.log env.slot) more
              ∙ stays i (ballots env.slot term (n.log env.slot)) (ballots env.slot term more) d (
                  subst (λ cs. length cs ≤ 1) (ballots-append env.slot term (n.log env.slot) more)
                    (new.once term))

      after-IsSoundNet : IsSoundNet members needed after
      after-IsSoundNet = record {
        sound = λ i there. elim (Bool-cases (i == env.slot)) [
          | inl same ↦
              let e : env.slot ≡ i = ground arith in
              subst (λ k. Sound k needed (Cast after.log k) (after.status k) (after.log k)) e here
          | inr other ↦
              rw
                (
                  put-other env.slot i u n.status other,
                  put-other env.slot i (n.log env.slot ++ more) n.log other,
                )
                (Sound-mono i needed (Cast n.log i) (Cast after.log i) (Cast-stays i) (n.status i)
                  (n.log i) (inv.sound i there))
        ];
        idle = λ i out. elim (Bool-cases (i == env.slot)) [
          | inl same ↦
              let e : i ≡ env.slot = ground arith in
              let inside : test_bit i members ≡ true = rw e member in absurd cc
          | inr other ↦ put-other env.slot i (n.log env.slot ++ more) n.log other ∙ inv.idle i out
        ];
      }
        where
          here :
              Sound env.slot needed
                (Cast after.log env.slot)
                (after.status env.slot)
                (after.log env.slot)
          here =
              rw (put-here env.slot u n.status, put-here env.slot (n.log env.slot ++ more) n.log)
                (Sound-mono env.slot needed (Cast n.log env.slot) (Cast after.log env.slot)
                  (Cast-stays env.slot) u (n.log env.slot ++ more) new)

  pub Reach-IsSoundNet :
      {n : Net} → length members ≡ max_slots → Reach members needed n → IsSoundNet members needed n
  Reach-IsSoundNet size (start s) = start-IsSoundNet _ s
  Reach-IsSoundNet size (step {n = n} r (turns env member same legit regular)) =
      let inv = Reach-IsSoundNet size r in
      let t = flow_turn (worker_turn env (n.status env.slot)) in
      after-IsSoundNet n env inv t.status t.actions member (
        subst (λ k. Sound env.slot k (Cast n.log env.slot) t.status (n.log env.slot ++ t.actions))
          same
          (worker_turn-Sound env (Cast n.log env.slot) (n.log env.slot) (n.status env.slot)
            (subst (λ k. env.slot < k) size (test_bit-size env.slot members member))
            (λ m e is_v. delivered-Cast n env inv size m is_v (legit m e)) regular
            (subst
              (λ k. Sound env.slot k (Cast n.log env.slot) (n.status env.slot) (n.log env.slot))
              (sym same) (inv.sound env.slot member))))
