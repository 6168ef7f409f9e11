-- ===== src/EventLog/Latest.antt =====
-- The log holds the latest entries, in order, up to its capacity.
use netforge.Prelude.{
  ℕ, suc, zero, ◌-◌, ◌+◌, ◌≤◌, ◌<◌, ◌^◌, String, ◌≡◌, refl, sym, ap, ◌∙◌, List, [], ◌∷◌, ◌++◌,
  arith, length, drop, length-append, append-nil, append_assoc, length-drop, ltb, Bool-cases, inl,
  inr,
}
use netforge.Prelude.Int64.{Int64, IsNonneg, lt64-ltb}
use netforge.EventLog.{EventLog, EventLogEntry, cut, record_event, milliseconds}

module _ {ℓ} {A : Type ℓ} where
  drop-append : (n : ℕ) (xs ys : List A) → n ≤ length xs → drop n (xs ++ ys) ≡ drop n xs ++ ys
  drop-append zero xs ys h = refl
  drop-append (suc n) [] ys h = ground arith
  drop-append (suc n) (x ∷ xs) ys h = drop-append n xs ys (omega arith)

  drop-nil : (n : ℕ) → drop {A = A} n [] ≡ []
  drop-nil zero = refl
  drop-nil (suc n) = refl

  drop-drop : (n m : ℕ) (xs : List A) → drop n (drop m xs) ≡ drop (m + n) xs
  drop-drop n zero xs = let e : n ≡ 0 + n = omega arith in ap (λ t. drop t xs) e
  drop-drop zero (suc m) [] = sym (drop-nil (suc m + zero))
  drop-drop (suc n) (suc m) [] = sym (drop-nil (suc m + suc n))
  drop-drop n (suc m) (x ∷ xs) =
      let e : suc (m + n) ≡ suc m + n = omega arith in
      drop-drop n m xs ∙ ap (λ t. drop t (x ∷ xs)) e

  -- The last n entries.
  unfoldable pub last_of : ℕ → List A → List A
  last_of n xs = drop (length xs - n) xs

  last_of-append : (n : ℕ) (xs ys : List A) → last_of n (last_of n xs ++ ys) ≡ last_of n (xs ++ ys)
  unfolding last_of
  last_of-append n xs ys =
      ap (λ t. drop (t - n) (drop (length xs - n) xs ++ ys))
        (length-append (drop (length xs - n) xs) ys
          ∙ ap (λ t. t + length ys) (length-drop (length xs - n) xs))
      ∙ ap (λ t. drop (((length xs - (length xs - n)) + length ys) - n) t)
          (sym (drop-append (length xs - n) xs ys (omega arith)))
      ∙ drop-drop (((length xs - (length xs - n)) + length ys) - n) (length xs - n) (xs ++ ys)
      ∙ ap (λ t. drop t (xs ++ ys)) (omega (arith, length-append xs ys))

-- What a caller of Record hands over.
pub record Event (D : Type 0) : Type 0 where
  pub sim_time : Int64
  pub category : String
  pub node_id : String
  pub port_id : String
  pub message : String
  pub details : D

module _ {D : Type 0} where
  abbrev pub entry_of : Event D → EventLogEntry D
  entry_of e = record {
    sim_time = milliseconds e.sim_time;
    category = e.category;
    node_id = e.node_id;
    port_id = e.port_id;
    message = e.message;
    details = e.details;
  }

  abbrev pub entries_of : List (Event D) → List (EventLogEntry D)
  entries_of [] = []
  entries_of (e ∷ es) = entry_of e ∷ entries_of es

  unfoldable pub record_events : EventLog D → List (Event D) → EventLog D
  record_events l [] = l
  record_events l (e ∷ es) =
      record_events (record_event l e.sim_time e.category e.node_id e.port_id e.message e.details)
        es

  cut-last_of :
      (n : Int64) (xs : List (EventLogEntry D))
      → IsNonneg n
      → length xs < 2 ^ 63
      → cut n xs ≡ last_of n xs
  unfolding cut last_of
  cut-last_of n xs hn hx = elim (Bool-cases (ltb n (length xs))) [
    | inl more ↦ rw (lt64-ltb n (length xs) hn hx, more) refl
    | inr few ↦
        let e : 0 ≡ length xs - n = ground arith in
        rw (lt64-ltb n (length xs) hn hx, few) (ap (λ t. drop t xs) e)
  ]

  record_events-fits :
      (l : EventLog D) (es : List (Event D)) (past : List (EventLogEntry D))
      → IsNonneg l.max_size
      → length past + length es < 2 ^ 63
      → l.entries ≡ last_of l.max_size past
      → (record_events l es).entries ≡ last_of l.max_size (past ++ entries_of es)
  unfolding record_events record_event last_of
  record_events-fits l [] past hm hl h = h ∙ ap (λ t. last_of l.max_size t) (sym (append-nil past))
  record_events-fits l (e ∷ es) past hm hl h =
      record_events-fits
        (record_event l e.sim_time e.category e.node_id e.port_id e.message e.details) es
        (past ++ entry_of e ∷ []) hm (omega (arith, length-append past (entry_of e ∷ [])))
        (cut-last_of l.max_size (l.entries ++ entry_of e ∷ []) hm (
            omega (
              arith,
              ap length h,
              length-append l.entries (entry_of e ∷ []),
              length-drop (length past - l.max_size) past,
            ))
          ∙ ap (λ t. last_of l.max_size (t ++ entry_of e ∷ [])) h
          ∙ last_of-append l.max_size past (entry_of e ∷ []))
      ∙ ap (λ t. last_of l.max_size t) (append_assoc past (entry_of e ∷ []) (entries_of es))

-- After any sequence of Record calls a log holds, in order, the latest of its old entries and the
-- recorded ones, as many as its capacity; the condition is that it held no more than its capacity
-- before.
pub record_events-last_of :
    {D : Type 0} (l : EventLog D) (es : List (Event D))
    → IsNonneg l.max_size
    → length l.entries + length es < 2 ^ 63
    → length l.entries ≤ l.max_size
    → (record_events l es).entries ≡ last_of l.max_size (l.entries ++ entries_of es)
unfolding last_of
record_events-last_of l es hm hl h =
    let none_dropped : 0 ≡ length l.entries - l.max_size = omega arith in
    record_events-fits l es l.entries hm hl (ap (λ n. drop n l.entries) none_dropped)
