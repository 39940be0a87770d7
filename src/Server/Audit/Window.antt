-- ===== src/Server/Audit/Window.antt =====
-- The window of events that a log keeps, under appending and loading (web/lib/audit.js).
use pwdnow_password_manager.Prelude.{
  ℕ, ◌+◌, ◌-◌, ◌≤◌, ◌<◌, ◌≡◌, ◌≢◌, refl, ◌∙◌, sym, ap, List, [], ◌∷◌, ◌++◌, true, inl, inr,
  Bool-cases, length, take, drop, arith, drop-append_le, take-append-drop, length-take,
  leb_false→lt, leb→le, le→leb, le→ltb_false, lt→ltb, min, drop-add, length-append, length-drop,
  leb, ltb, if◌then◌else◌,
}
use pwdnow_password_manager.Server.Audit.{
  AuditData, AuditEvent, AuditKey, zeros, max_events, verify, last_hash, trimmed, sealed_event,
  append_data,
}
use pwdnow_password_manager.Server.Audit.Chain.{
  IsCollisionFree, chain, end_hash, window, first_flagged, length-chain, chain-append, drop-chain,
  end_hash-append, verify-chain, verify-chain_other, end_hash-ne-zeros, last_hash-chain,
}

-- The log as it is loaded after the events were appended: unflagged up to the cap, else the
-- window, whose first event is flagged.
abbrev pub as_loaded : AuditKey → List AuditData → List AuditEvent
as_loaded k ds =
    if leb (length ds) max_events then chain k zeros ds else first_flagged (window k ds)

length-first_flagged : (es : List AuditEvent) → length (first_flagged es) ≡ length es
length-first_flagged [] = refl
length-first_flagged (e ∷ es) = refl

last_hash-first_flagged : (es : List AuditEvent) → last_hash (first_flagged es) ≡ last_hash es
unfolding last_hash
last_hash-first_flagged [] = refl
last_hash-first_flagged (e ∷ []) = refl
last_hash-first_flagged (e ∷ e' ∷ es) = refl

-- Dropping an event drops the flag.
drop-append-first_flagged :
    (es fs : List AuditEvent) → 1 ≤ length es → drop 1 (first_flagged es ++ fs) ≡ drop 1 (es ++ fs)
drop-append-first_flagged [] fs some_event = absurd (omega arith)
drop-append-first_flagged (e ∷ es) fs some_event = refl

trimmed_short : (es : List AuditEvent) → length es ≤ max_events → trimmed es ≡ es
unfolding trimmed
trimmed_short es short = rw (le→ltb_false max_events (length es) short) refl

trimmed_full : (es : List AuditEvent) → length es ≡ max_events + 1 → trimmed es ≡ drop 1 es
unfolding trimmed
trimmed_full es full =
    let long : ltb max_events (length es) ≡ true = lt→ltb max_events (length es) (omega arith) in
    rw (long, full) refl

module _ (k : AuditKey) (free : IsCollisionFree k) where
  last_hash-suffix :
      (prev : List ℕ) (ds : List AuditData)
      → 1 ≤ length ds
      → last_hash (chain k prev ds) ≡ end_hash k prev ds
  last_hash-suffix prev [] some_event = absurd (omega arith)
  last_hash-suffix prev (d ∷ ds) some_event = last_hash-chain k free prev d ds

  end_hash-ne-zeros_start : (ds : List AuditData) → 1 ≤ length ds → zeros ≢ end_hash k zeros ds
  end_hash-ne-zeros_start [] some_event = absurd (omega arith)
  end_hash-ne-zeros_start (d ∷ ds) some_event = λ e. end_hash-ne-zeros k free zeros d ds (sym e)

  window_short : (ds : List AuditData) → length ds ≤ max_events → window k ds ≡ chain k zeros ds
  window_short ds short =
      let none_dropped : length ds - max_events ≡ 0 = omega arith in
      ap (λ n. drop n (chain k zeros ds)) none_dropped

  window-eq-chain :
      (ds : List AuditData)
      → window k ds
        ≡ chain k
            (end_hash k zeros (take (length ds - max_events) ds))
            (drop (length ds - max_events) ds)
  window-eq-chain ds = drop-chain k zeros (length ds - max_events) ds

  last_hash-window : (ds : List AuditData) → last_hash (window k ds) ≡ end_hash k zeros ds
  unfolding last_hash
  last_hash-window [] = refl
  last_hash-window (d ∷ ds) =
      let m = length (d ∷ ds) - max_events in
      ap last_hash (window-eq-chain (d ∷ ds))
      ∙ last_hash-suffix (end_hash k zeros (take m (d ∷ ds))) (drop m (d ∷ ds))
          (omega (arith, length-drop m (d ∷ ds)))
      ∙ sym (end_hash-append k zeros (take m (d ∷ ds)) (drop m (d ∷ ds)))
      ∙ ap (end_hash k zeros) (take-append-drop m (d ∷ ds))

  pub verify-window : (ds : List AuditData) → verify k zeros (window k ds) ≡ as_loaded k ds
  verify-window ds = elim (Bool-cases (leb (length ds) max_events)) [
    | inl short ↦ rw (short, window_short ds (ground arith)) (verify-chain k free zeros ds)
    | inr long ↦
        let m = length ds - max_events in
        let some_event : 1 ≤ length (take m ds) =
          omega (arith, length-take m ds, leb_false→lt _ _ long) in
        rw (long, window-eq-chain ds)
          (verify-chain_other k free zeros (end_hash k zeros (take m ds)) (drop m ds)
            (end_hash-ne-zeros_start (take m ds) some_event))
  ]

  last_hash-as_loaded : (ds : List AuditData) → last_hash (as_loaded k ds) ≡ end_hash k zeros ds
  last_hash-as_loaded ds = elim (Bool-cases (leb (length ds) max_events)) [
    | inl short ↦
        rw (short) (ap last_hash (sym (window_short ds (ground arith))) ∙ last_hash-window ds)
    | inr long ↦ rw (long) (last_hash-first_flagged (window k ds) ∙ last_hash-window ds)
  ]

  length-window : (ds : List AuditData) → length (window k ds) ≡ min (length ds) max_events
  length-window ds =
      omega
        (arith, length-drop (length ds - max_events) (chain k zeros ds), length-chain k zeros ds)

  -- Once the log is full, the flag does not outlive the next append.
  drop-append-as_loaded :
      (ds : List AuditData) (es : List AuditEvent)
      → max_events ≤ length ds
      → (length (as_loaded k ds ++ es) ≡ max_events + length es)
        × (drop 1 (as_loaded k ds ++ es) ≡ drop 1 (window k ds ++ es))
  drop-append-as_loaded ds es full = elim (Bool-cases (leb (length ds) max_events)) [
    | inl short ↦
        rw (short, window_short ds (leb→le (length ds) max_events short))
          (
            omega (
              arith,
              length-append (chain k zeros ds) es,
              length-chain k zeros ds,
              leb→le (length ds) max_events short,
            ),
            refl,
          )
    | inr long ↦ rw (long) (
      omega (
        arith,
        length-append (first_flagged (window k ds)) es,
        length-window ds,
        length-first_flagged (window k ds),
      ),
      drop-append-first_flagged (window k ds) es (omega (arith, length-window ds)),
    )
  ]

  drop-window :
      (ds : List AuditData) (d : AuditData)
      → max_events ≤ length ds
      → drop 1 (window k ds ++ sealed_event k (end_hash k zeros ds) d ∷ [])
        ≡ window k (ds ++ d ∷ [])
  drop-window ds d full =
      let whole = chain k zeros ds in
      let new = sealed_event k (end_hash k zeros ds) d ∷ [] in
      let m = length ds - max_events in
      let next : m + 1 ≡ length (ds ++ d ∷ []) - max_events =
        omega (arith, length-append ds (d ∷ [])) in
      drop-append_le 1 (window k ds) new (omega (arith, length-window ds))
      ∙ ap (λ r. r ++ new) (sym (drop-add m 1 whole))
      ∙ sym (drop-append_le (m + 1) whole new (omega (arith, length-chain k zeros ds)))
      ∙ ap (drop (m + 1)) (sym (chain-append k zeros ds (d ∷ [])))
      ∙ ap (λ n. drop n (chain k zeros (ds ++ d ∷ []))) next

  -- The chain goes on behind what was loaded, and the window moves.
  pub append-window :
      (ds : List AuditData) (d : AuditData)
      → append_data k d (verify k zeros (window k ds)) ≡ window k (ds ++ d ∷ [])
  unfolding append_data
  append-window ds d =
      let new = sealed_event k (end_hash k zeros ds) d ∷ [] in
      rw (verify-window ds, last_hash-as_loaded ds)
        (elim (Bool-cases (leb max_events (length ds))) [
          | inl full ↦
              let (many, dropped) =
                drop-append-as_loaded ds new (leb→le max_events (length ds) full) in
              trimmed_full (as_loaded k ds ++ new) many
              ∙ dropped
              ∙ drop-window ds d (leb→le max_events (length ds) full)
          | inr room ↦
              let fits : length ds < max_events = leb_false→lt max_events (length ds) room in
              let short : leb (length ds) max_events ≡ true =
                le→leb (length ds) max_events (omega arith) in
              rw (short) (
                trimmed_short (chain k zeros ds ++ new)
                  (omega (arith, length-append (chain k zeros ds) new, length-chain k zeros ds))
                ∙ sym (chain-append k zeros ds (d ∷ []))
                ∙ sym (window_short (ds ++ d ∷ []) (omega (arith, length-append ds (d ∷ [])))))
        ])
