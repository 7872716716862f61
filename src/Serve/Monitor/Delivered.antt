-- ===== src/Serve/Monitor/Delivered.antt =====
-- What a poll sends, and that a reading is offered to the server until it takes it.
use oraja_traning.Prelude.{
  String, suc, ◌≡◌, ◌≢◌, refl, ◌∙◌, ap, ◌⊎◌, inl, inr, Bool-cases, true, false, Option, none, some,
  List, [], ◌∷◌, ◌++◌, arith, length, All, is_some,
}
use oraja_traning.Prelude.Int.{ℤ}
use oraja_traning.Prelude.Eq.{Eq, ◌==◌, int_eq, pair_eq, option_eq, beq-ne}
use oraja_traning.Prelude.Float.{Float}
use oraja_traning.Prelude.Result.{ok, err}
use oraja_traning.Serve.Monitor.{
  ProgressCounts, Settings, Post, Status, Worker, Poll, Polled, overdue, is_due, send, poll_read,
  poll_once, run, post_of,
}

message_of : (o : Option String) → is_some o ≡ true → (message : String) × (o ≡ some message)
message_of none h = cc
message_of (some message) h = (message, refl)

ne_of_beq {ℓ} : {T : Type ℓ} ⦃e : Eq T⦄ (x y : T) → (x == y) ≡ false → x ≢ y
ne_of_beq ⦃e⦄ x y h = λ same. cc (h, (e.beq_iff x y).1 same)

module _ (f : Float) (trunc : f.Num → ℤ) (inf : f.Num) where
  open f use {Num, sub, le}

  module _ (settings : Settings Num) (token : String) where
    -- What a poll records as sent, apart from the counts that it has read.
    abbrev pub Unsent : Worker Num → Worker Num → Type 0
    Unsent w w' =
        (w'.last_sent_monotonic ≡ w.last_sent_monotonic)
        × (w'.last_sent_at ≡ w.last_sent_at)
        × (w'.last_sent_counts ≡ w.last_sent_counts)

    -- A reading has to be sent: it is forced, it differs from the one last sent, nothing was sent
    -- so far, or the last call that went through is a heartbeat ago.
    abbrev pub IsDue : Worker Num → Poll Num → ProgressCounts → Type 0
    IsDue w p counts =
        (p.force ≡ true)
        ⊎ ((some counts ≢ w.last_sent_counts)
            ⊎ ((w.last_sent_monotonic ≡ none)
                ⊎ ((sent : Num) × ((w.last_sent_monotonic ≡ some sent)
                      × (le settings.heartbeat (sub p.monotonic_now sent) ≡ true)))))

    -- The reading is sent to the server of the settings, under their source and with the token.
    pub record IsPostOf (counts : ProgressCounts) (now : Num) (posted : Option Post) : Type 0 where
      pub post : Post
      pub is_posted : posted ≡ some post
      pub to_server : post.url ≡ settings.server_url
      pub with_token : post.token ≡ token
      pub of_source : post.source_id ≡ settings.source_id
      pub has_counts : post.counts ≡ counts
      pub at_second : post.observed_at ≡ trunc now

    -- A poll, for each answer of the reader and the sender.
    pub record IsPolled (w : Worker Num) (p : Poll Num) (r : Polled Num) : Type 0 where
      pub unread :
          (message : String)
          → p.read ≡ err message
          → (r.posted ≡ none)
            × (r.worker ≡ w)
            × (r.snapshot.status ≡ Status.error)
            × (r.snapshot.message ≡ some message)
      pub quiet :
          (counts : ProgressCounts)
          → p.read ≡ ok counts
          → ¬ IsDue w p counts
          → (r.posted ≡ none) × Unsent w r.worker × (r.worker.last_counts ≡ some counts)
      pub refused :
          (counts : ProgressCounts) (message : String)
          → p.read ≡ ok counts
          → IsDue w p counts
          → p.refused ≡ some message
          → IsPostOf counts p.now r.posted
            × Unsent w r.worker
            × (r.snapshot.status ≡ Status.error)
            × (r.snapshot.message ≡ some message)
            × (r.snapshot.current_judged ≡ some counts.0)
            × (r.snapshot.today_judged ≡ counts.1)
      pub taken :
          (counts : ProgressCounts)
          → p.read ≡ ok counts
          → IsDue w p counts
          → p.refused ≡ none
          → IsPostOf counts p.now r.posted
            × (r.worker.last_sent_counts ≡ some counts)
            × (r.worker.last_sent_at ≡ some p.now)
            × (r.worker.last_sent_monotonic ≡ some p.monotonic_now)
            × (r.snapshot.message ≡ none)

    overdue-elapsed :
        (last : Option Num) (now : Num)
        → overdue f trunc inf settings token last now ≡ true
        → (last ≡ none)
          ⊎ ((sent : Num) × ((last ≡ some sent) × (le settings.heartbeat (sub now sent) ≡ true)))
    overdue-elapsed none now h = inl refl
    overdue-elapsed (some sent) now h = inr (sent, (refl, h))

    -- The test of the code says whether the reading is due, also once it stands in the worker.
    due_test :
        (w : Worker Num) (p : Poll Num) (counts : ProgressCounts)
        → IsDue w p counts
        → is_due f trunc inf settings token
            (record w { last_counts = some counts })
            p.force
            counts
            p.monotonic_now
          ≡ true
    unfolding is_due
    due_test w p counts (inl forced) = rw forced refl
    due_test w p counts (inr (inl new)) =
        ground (arith, beq-ne (some counts) w.last_sent_counts new)
    due_test w p counts (inr (inr (inl never))) = rw never (ground arith)
    due_test w p counts (inr (inr (inr (sent, (last, elapsed))))) =
        rw last (ground (arith, elapsed))

    not_due_test :
        (w : Worker Num) (p : Poll Num) (counts : ProgressCounts)
        → ¬ IsDue w p counts
        → is_due f trunc inf settings token
            (record w { last_counts = some counts })
            p.force
            counts
            p.monotonic_now
          ≡ false
    unfolding is_due
    not_due_test w p counts quiet = elim (Bool-cases p.force) [
      | inl forced ↦ absurd (quiet (inl forced))
      | inr unforced ↦ elim (Bool-cases (some counts == w.last_sent_counts)) [
        | inr new ↦ absurd (quiet (inr (inl (ne_of_beq _ _ new))))
        | inl same ↦
            elim (Bool-cases
              (overdue f trunc inf settings token w.last_sent_monotonic p.monotonic_now)) [
                | inl late ↦ absurd (quiet (inr (inr (overdue-elapsed _ _ late))))
                | inr early ↦ rw (unforced, same, early) refl
              ]
      ]
    ]

    posts :
        (counts : ProgressCounts) (now : Num)
        → IsPostOf counts now (some (post_of f trunc inf settings token counts now))
    posts counts now = record {
      post = post_of f trunc inf settings token counts now;
      is_posted = refl;
      to_server = refl;
      with_token = refl;
      of_source = refl;
      has_counts = refl;
      at_second = refl;
    }

    -- A poll, by what it meets. If the reading fails, nothing is sent, the worker stays as it is
    -- and the snapshot reports the error. If the reading succeeds and neither the force, nor counts
    -- other than those last sent, nor the heartbeat makes a call due, nothing is sent and only the
    -- last reading changes. If a call is due, exactly this reading is sent, to the server and with
    -- the token, the source and the second of the poll: when the sender fails, what was last sent
    -- stays and the snapshot reports the error with the new counts; when it does not, the counts and
    -- the times of the poll are recorded as sent.
    pub poll_once-IsPolled :
        (w : Worker Num) (p : Poll Num) → IsPolled w p (poll_once f trunc inf settings token w p)
    unfolding poll_once poll_read send
    poll_once-IsPolled w p = record {
      unread = λ message e. rw e (refl, refl, refl, refl);
      quiet =
          λ counts e quiet. rw (e, not_due_test w p counts quiet) (refl, (refl, refl, refl), refl);
      refused = λ counts message e due refusal.
          rw (e, due_test w p counts due, refusal)
            (posts counts p.now, (refl, refl, refl), refl, refl, refl, refl);
      taken = λ counts e due accepted.
          rw (e, due_test w p counts due, accepted) (posts counts p.now, refl, refl, refl, refl);
    }

    -- Polls that read these counts and whose calls the sender refuses.
    abbrev pub Fails : ProgressCounts → Poll Num → Type 0
    Fails counts p = (p.read ≡ ok counts) × (is_some p.refused ≡ true)

    -- Polls read counts that differ from those last sent. While the sender refuses, every one of
    -- them calls it, with these counts; and as soon as it does not refuse, they are recorded as
    -- sent, however many polls failed before.
    pub run-delivers :
        (w : Worker Num) (counts : ProgressCounts) (ps : List (Poll Num)) (p : Poll Num)
        → some counts ≢ w.last_sent_counts
        → All (Fails counts) ps
        → p.read ≡ ok counts
        → p.refused ≡ none
        → let r = run f trunc inf settings token w (ps ++ p ∷ []) in
          (r.0.last_sent_counts ≡ some counts)
          × (length r.1 ≡ suc (length ps))
          × All (λ (post : Post). post.counts ≡ counts) r.1
    unfolding run
    run-delivers w counts [] p new fails read taken =
        let (call, recorded, _, _, _) =
          (poll_once-IsPolled w p).taken counts read (inr (inl new)) taken in
        (recorded, rw (call.is_posted, length) refl, rw (call.is_posted, All) (call.has_counts, tt))
    run-delivers w counts (q ∷ ps) p new (here, fails) read taken =
        let (message, refused) = message_of q.refused here.1 in
        let (call, (_, _, same), _, _, _, _) =
          (poll_once-IsPolled w q).refused counts message here.0 (inr (inl new)) refused in
        let w' = (poll_once f trunc inf settings token w q).worker in
        let (recorded, tried, exact) =
          run-delivers w' counts ps p (λ e. new (e ∙ same)) fails read taken in
        (
          recorded,
          rw (call.is_posted, length) (ap suc tried),
          rw (call.is_posted, All) (call.has_counts, exact),
        )
