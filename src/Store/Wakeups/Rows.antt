-- ===== src/Store/Wakeups/Rows.antt =====
-- store.py, the wakeups of one channel after they were saved or deleted.
use sockpost.Common.{
  ℕ, ◌≡◌, refl, subst, Bool, true, false, not, List, [], ◌∷◌, ◌++◌, arith, Text, text_eq,
  text_eq_iff, any, filter, update_where, Bool-cases, inl, inr,
}
use sockpost.Store.Tables.{Wakeup, Db}
use sockpost.Store.Wakeups.{save_wakeup, delete_wakeup}
use sockpost.Store.Keyed.{has_key, Distinct}

abbrev pub wakeups_of : Text → Db → List Wakeup
wakeups_of channel db = filter (λ (w : Wakeup). text_eq w.channel channel) db.wakeups

abbrev pub wakeup_row : Text → Text → ℕ → Wakeup
wakeup_row channel interval seconds = record {
  channel = channel;
  interval = interval;
  seconds = seconds;
}

module _ (channel interval : Text) (seconds : ℕ) where
  abbrev here : Wakeup → Bool
  here w = text_eq w.channel channel

  abbrev updated : List Wakeup → List Wakeup
  updated rows =
      filter here (
        update_where here (λ (w : Wakeup). record w { interval = interval; seconds = seconds })
          rows)

  updated-none : (rows : List Wakeup) → any here rows ≡ false → updated rows ≡ []
  updated-none [] h = refl
  updated-none (r ∷ rs) h = ground (arith, updated-none rs)

  updated-one :
      (rows : List Wakeup)
      → any here rows ≡ true
      → Distinct (λ (w : Wakeup). w.channel) rows
      → updated rows ≡ wakeup_row channel interval seconds ∷ []
  updated-one [] h d = cc
  updated-one (r ∷ rs) h d = elim (Bool-cases (text_eq r.channel channel)) [
    | inl e ↦
        let q : r.channel ≡ channel = (text_eq_iff r.channel channel).0 e in
        let none_left : any here rs ≡ false =
          subst (λ k. has_key (λ (w : Wakeup). w.channel) k rs ≡ false) q d.0 in
        rw (e, e, updated-none rs none_left, q) refl
    | inr e ↦ rw (e, e) (updated-one rs (rw e at h) d.1)
  ]

  appended-one :
      (rows : List Wakeup)
      → any here rows ≡ false
      → filter here (rows ++ wakeup_row channel interval seconds ∷ [])
        ≡ wakeup_row channel interval seconds ∷ []
  appended-one [] h = rw ((text_eq_iff channel channel).1 refl) refl
  appended-one (r ∷ rs) h = ground (arith, appended-one rs)

  pub wakeups_of-save_wakeup :
      (db : Db)
      → Distinct (λ (w : Wakeup). w.channel) db.wakeups
      → wakeups_of channel (save_wakeup channel interval seconds db)
        ≡ wakeup_row channel interval seconds ∷ []
  unfolding save_wakeup
  wakeups_of-save_wakeup db d = elim (Bool-cases (any here db.wakeups)) [
    | inl e ↦ rw e (updated-one db.wakeups e d)
    | inr e ↦ rw e (appended-one db.wakeups e)
  ]

pub wakeups_of-delete_wakeup :
    (channel : Text) (db : Db) → wakeups_of channel (delete_wakeup channel db).1 ≡ []
unfolding delete_wakeup
wakeups_of-delete_wakeup channel db = all_gone db.wakeups
  where
    all_gone :
        (rows : List Wakeup)
        → filter
            (λ (w : Wakeup). text_eq w.channel channel)
            (filter (λ (w : Wakeup). not (text_eq w.channel channel)) rows)
          ≡ []
    all_gone [] = refl
    all_gone (r ∷ rs) = ground (arith, all_gone rs)
