-- ===== src/Resolver/Recovery/Polling.antt =====
-- The loop of `_recover_torrent_file`: which poll it ends with, and how.
use strmline.Prelude.{
  ℕ, zero, suc, ◌+◌, ◌≤◌, ◌≡◌, refl, sym, inl, inr, String, none, some, nat_beq, nat_beq_iff, subst,
  Result, Result-cases, ok, raise, Bool-cases, Option-cases, arith,
}
use strmline.Prelude.Text.{Unicode}
use strmline.Torbox.Files.{TorBoxFile}
use strmline.Resolver.Recovery.{
  ClientError, RecoveryFailure, TorBoxPlaybackClient, Known, poll, found_in, recover_loop,
  not_produced, playback_recovery_attempts,
}

module _ (u : Unicode) (client : TorBoxPlaybackClient) (info_hash : String)
    (saved_file : TorBoxFile) where
  -- What is known after a number of polls, when none of the attempts before them has found the
  -- file.
  pub data Polled (start : Known) : ℕ → Known → Type 0 where
    began : Polled start 0 start
    polled :
        {polls : ℕ} {before after : Known}
        → found_in u before.0 saved_file ≡ none
        → poll client info_hash (polls + 1) before.1 ≡ ok after
        → Polled start polls before
        → Polled start (polls + 1) after

  -- How the loop ends: with the first match, with the first error of a poll, or without a match
  -- after 29 polls.
  pub data Ended (start : Known) : ℕ × Result RecoveryFailure TorBoxFile → Type 0 where
    found :
        {polls : ℕ} {known : Known} {f : TorBoxFile}
        → polls ≤ 29
        → Polled start polls known
        → found_in u known.0 saved_file ≡ some f
        → Ended start (polls, ok f)
    failed :
        {polls : ℕ} {known : Known} {error : ClientError}
        → polls + 1 ≤ 29
        → Polled start polls known
        → found_in u known.0 saved_file ≡ none
        → poll client info_hash (polls + 1) known.1 ≡ raise error
        → Ended start (polls + 1, raise (RecoveryFailure.client_error error))
    gave_up :
        {known : Known}
        → Polled start 29 known
        → found_in u known.0 saved_file ≡ none
        → Ended start (29, raise not_produced)

  loop-Ended :
      (start known : Known) (left attempt : ℕ)
      → attempt + left ≡ 30
      → attempt ≤ 29
      → Polled start attempt known
      → Ended start (recover_loop u client info_hash saved_file left attempt known)
  unfolding recover_loop
  loop-Ended start known zero attempt e h p = absurd (omega (arith, e, h))
  loop-Ended start known (suc left) attempt e h p =
      elim (Option-cases (found_in u known.0 saved_file)) [
        | inr (f, m) ↦ rw (recover_loop, m) (Ended.found h p m)
        | inl m ↦ elim (Bool-cases (nat_beq (attempt + 1) 30)) [
          | inl last ↦
              let at : attempt ≡ 29 = omega (arith, (nat_beq_iff (attempt + 1) 30).0 last) in
              subst (λ r. Ended start r) (rw (recover_loop, m, last) refl)
                (subst (λ k. Ended start (k, raise not_produced)) (sym at)
                  (Ended.gave_up (subst (λ k. Polled start k known) at p) m))
          | inr more ↦
              let small : attempt + 1 ≤ 29 = ground (arith, nat_beq_iff (attempt + 1) 30) in
              elim (Result-cases (poll client info_hash (attempt + 1) known.1)) [
                | inl (error, q) ↦ rw (recover_loop, m, more, q) (Ended.failed small p m q)
                | inr (next, q) ↦
                    rw (recover_loop, m, more, q)
                      (loop-Ended start next left (attempt + 1) (omega (arith, e)) small
                        (Polled.polled m q p))
              ]
        ]
      ]

  -- Once a torrent is found or created, the recovery ends after 29 polls at most: with the file
  -- that the first attempt to find one finds, with the error of the first poll that fails, or,
  -- when none of the 30 attempts finds a file, with a recovery error.
  pub recover_loop-Ended :
      (start : Known)
      → Ended start (recover_loop u client info_hash saved_file playback_recovery_attempts 0 start)
  recover_loop-Ended start = loop-Ended start start 30 0 refl (omega arith) Polled.began
