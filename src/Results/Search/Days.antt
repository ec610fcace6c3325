-- ===== src/Results/Search/Days.antt =====
-- The date bounds of `searchPred.match` of server/results.go, read as days.
use duplicatefinder.Base.{
  text_eq, ◌||◌, ap, ◌∙◌, ◌&&◌, arith, text_lt-cons, refl, not, [], ◌++◌, ◌∷◌, false, ltb, text_lt,
  true, length, all, ◌≡◌, Bool, text_compare, is_nil, Text,
}
use duplicatefinder.Model.{FileEnt}
use duplicatefinder.Results.Search.{through_day, Query, pred_of}
use duplicatefinder.Results.Search.Match.{in_dates, match_date, date_value}

lt_from-append : (from d t : Text) → length from ≡ length d → text_lt (d ++ t) from ≡ text_lt d from
unfolding text_compare
lt_from-append [] [] [] h = refl
lt_from-append [] [] (c ∷ t) h = refl
lt_from-append [] (c ∷ d) t h = absurd (omega (arith, h))
lt_from-append (x ∷ from) [] t h = absurd (omega (arith, h))
lt_from-append (x ∷ from) (c ∷ d) t h =
    let ih = lt_from-append from d t (omega (arith, h)) in
    rw (text_lt-cons c x (d ++ t) from, text_lt-cons c x d from) (ground (arith, ih))

-- A time of day is text of bytes below 255.
abbrev pub is_time : Text → Bool
is_time = all (λ c. ltb c 255)

past_end : (t : Text) → is_time t ≡ true → text_lt (255 ∷ []) t ≡ false
unfolding text_compare
past_end [] h = refl
past_end (c ∷ t) h = rw (text_lt-cons 255 c [] t) (ground (arith, h))

through_day-append :
    (to d t : Text)
    → length to ≡ length d
    → is_time t ≡ true
    → text_lt (to ++ 255 ∷ []) (d ++ t) ≡ text_lt to d
unfolding text_compare
through_day-append [] [] t h k = past_end t k
through_day-append [] (c ∷ d) t h k = absurd (omega (arith, h))
through_day-append (x ∷ to) [] t h k = absurd (omega (arith, h))
through_day-append (x ∷ to) (c ∷ d) t h k =
    let ih = through_day-append to d t (omega (arith, h)) k in
    rw (text_lt-cons x c (to ++ 255 ∷ []) (d ++ t), text_lt-cons x c to d) (ground (arith, ih))

append-not_nil : (s t : Text) → is_nil s ≡ false → is_nil (s ++ t) ≡ false
append-not_nil [] t h = cc
append-not_nil (c ∷ s) t h = refl

not_nil_of-length : (s d : Text) → length s ≡ length d → is_nil d ≡ false → is_nil s ≡ false
not_nil_of-length [] [] h n = n
not_nil_of-length [] (c ∷ d) h n = absurd (omega (arith, h))
not_nil_of-length (x ∷ s) d h n = refl

in_dates-days :
    (from to d t : Text)
    → length from ≡ length d
    → length to ≡ length d
    → is_nil d ≡ false
    → is_time t ≡ true
    → in_dates from (through_day to) (d ++ t) ≡ (not (text_lt d from) && not (text_lt to d))
unfolding in_dates
in_dates-days from to d t from_len to_len some_day time =
    rw
      (
        not_nil_of-length from d from_len some_day,
        not_nil_of-length to d to_len some_day,
        append-not_nil d t some_day,
        append-not_nil to (255 ∷ []) (not_nil_of-length to d to_len some_day),
        lt_from-append from d t from_len,
        through_day-append to d t to_len time,
      )
      (not-or (text_lt d from) (text_lt to d))
  where
    not-or : (a b : Bool) → not (a || b) ≡ (not a && not b)
    not-or true b = refl
    not-or false b = refl

match_date-by :
    (q : Query) (f : FileEnt)
    → is_nil q.date_from ≡ false
    → is_nil q.date_by ≡ false
    → match_date (pred_of q) f
      ≡ in_dates q.date_from (through_day q.date_to) (date_value q.date_by f)
unfolding match_date pred_of text_eq
match_date-by q f some_from by = rw (some_from, by) refl

-- A search between two days: a row whose date of the chosen kind is the day `d` at the time `t`
-- passes exactly if `d` is neither before the first day nor after the last, whatever the time.
pub match_date-days :
    (q : Query) (f : FileEnt) (d t : Text)
    → is_nil q.date_by ≡ false
    → date_value q.date_by f ≡ d ++ t
    → length q.date_from ≡ length d
    → length q.date_to ≡ length d
    → is_nil d ≡ false
    → is_time t ≡ true
    → match_date (pred_of q) f ≡ (not (text_lt d q.date_from) && not (text_lt q.date_to d))
match_date-days q f d t by v from_len to_len some_day time =
    match_date-by q f (not_nil_of-length q.date_from d from_len some_day) by
    ∙ ap (in_dates q.date_from (through_day q.date_to)) v
    ∙ in_dates-days q.date_from q.date_to d t from_len to_len some_day time
