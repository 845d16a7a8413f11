-- ===== src/Analytics/Service/Reads/Listing.antt =====
-- The days that a query by a range of dates lists, for a collection with one document for each date.
use quick_bite_analytics_ser.Prelude.{
  String, ltb_text, ◌≡◌, refl, sym, ap, ap₂, ◌∙◌, subst, Bool, true, false, Option, none, some,
  List, [], ◌∷◌, map, All, Mem, arith, if◌then◌else◌,
}
use mathlib.Core.List.{mem-map_of_mem}
use quick_bite_analytics_ser.Go.Effect.{Result, ok, fail, reads, return, throw, proceed, ◌>>=◌}
use quick_bite_analytics_ser.Mongo.Bson.{Doc, covers, fields_are, has}
use quick_bite_analytics_ser.Mongo.Driver.{Mongo}
use quick_bite_analytics_ser.Mongo.Finding.{matches, in_order, differ, AllPairs, Found, Finds}
use quick_bite_analytics_ser.Analytics.Types.{err_invalid_date_range}
use quick_bite_analytics_ser.Analytics.Decode.{decode_all}
use quick_bite_analytics_ser.Analytics.Decode.Fields.{decode_all-cons}
use quick_bite_analytics_ser.Analytics.Service.Reads.Ranged.{
  Within, range_of, key_of, names, date_of, covers-key_of, matches-range_of, dates-ascend,
  dates-Within, fields_are-key_of,
}

-- `dates` are the days from `from` to `to` that have a document with this key, each once, in
-- ascending order.
pub record Lists (present : String → Bool) (from to : String) (dates : List String) : Type 0 where
  pub within : All (Within from to) dates
  pub ascending : AllPairs (λ a b. ltb_text a b ≡ true) dates
  pub recorded : All (λ date. present date ≡ true) dates
  pub complete : (date : String) → Within from to date → present date ≡ true → Mem date dates

module _ {W A B : Type 0} (row : A → B) (w : W) where
  rows_mapped :
      (y : Result (List A)) {out : List B}
      → (proceed y (λ rows. return (map row rows)) w).0 ≡ ok out
      → (rows : List A) × (y ≡ ok rows) × (out ≡ map row rows)
  rows_mapped (ok rows) h = (rows, refl, ground arith)
  rows_mapped (fail e) h = cc

  found_mapped :
      (x : Result (List Doc)) (f : List Doc → Result (List A)) {out : List B}
      → ((((λ _. (x, w)) >>= λ docs. reads (λ _. f docs)) >>= λ rows. return (map row rows)) w).0
        ≡ ok out
      → (ds : List Doc) × (rows : List A) × (x ≡ ok ds) × (f ds ≡ ok rows) × (out ≡ map row rows)
  found_mapped (fail e) f h = cc
  found_mapped (ok ds) f h =
      let (rows, decoded, mapped) = rows_mapped (f ds) h in (ds, rows, refl, decoded, mapped)

  -- What a query that returned has read.
  pub query_read :
      (b : Bool) (read : W → Result (List Doc)) (f : List Doc → Result (List A)) {out : List B}
      → ((if b
            then throw err_invalid_date_range
            else ((do docs ← reads read; reads (λ _. f docs)) >>= λ rows. return (map row rows)))
          w).0
        ≡ ok out
      → (ds : List Doc) × (rows : List A) × (read w ≡ ok ds)
        × (f ds ≡ ok rows)
        × (out ≡ map row rows)
  query_read true read f h = cc
  query_read false read f h = found_mapped (read w) f h

module _ (index : String → List String) (m : Mongo) (c : String) (fixed : Doc) (from to : String)
    (w : m.World) (indexed : index c ≡ names fixed) where
  abbrev point_at : String → Option Doc
  point_at date = m.point w c (key_of fixed date)

  fields_indexed : (date : String) → fields_are (key_of fixed date) (index c) ≡ true
  fields_indexed date = rw indexed (fields_are-key_of fixed date)

  points :
      (ds : List Doc)
      → All (λ d. matches (range_of fixed from to) d ≡ true) ds
      → All
          (λ d.
            (g : Doc) → fields_are g (index c) ≡ true → covers d g ≡ true → m.point w c g ≡ some d)
          ds
      → All (λ d. point_at (date_of d) ≡ some d) ds
  points [] taken stored = tt
  points (d ∷ ds) (p, taken) (s, stored) = (
    s (key_of fixed (date_of d)) (fields_indexed (date_of d)) (covers-key_of fixed from to d p).0,
    points ds taken stored,
  )

  dates_recorded :
      (ds : List Doc)
      → All (λ d. point_at (date_of d) ≡ some d) ds
      → All (λ date. has (point_at date) ≡ true) (map date_of ds)
  dates_recorded [] h = tt
  dates_recorded (d ∷ ds) (e, h) = (ap has e, dates_recorded ds h)

  date-mem :
      (ds : List Doc) (date : String)
      → Found index m c (range_of fixed from to) ("date" ∷ []) w ds
      → Within from to date
      → (o : Option Doc) → point_at date ≡ o
      → has o ≡ true
      → Mem date (map date_of ds)
  date-mem ds date found within none e h = cc
  date-mem ds date found within (some d) e h =
      let (covered, taken) = found.complete (key_of fixed date) d (fields_indexed date) e in
      let (p, same) = matches-range_of fixed from to date d covered within in
      subst (λ x. Mem x (map date_of ds)) same (mem-map_of_mem date_of (taken p))

  Found-Lists :
      (ds : List Doc)
      → Found index m c (range_of fixed from to) ("date" ∷ []) w ds
      → Lists (λ date. has (point_at date)) from to (map date_of ds)
  Found-Lists ds found = record {
    within = dates-Within fixed from to ds found.matching;
    ascending = dates-ascend fixed from to ds found.matching (
        subst
          (λ xs. AllPairs (λ a b. (in_order ("date" ∷ []) a b ≡ true) × (differ xs a b ≡ true)) ds)
          indexed found.sorted);
    recorded = dates_recorded ds (points ds found.matching found.stored);
    complete = λ date within h. date-mem ds date found within (point_at date) refl h;
  }

  -- Rows that say of their document what `spec` says of it and of its date.
  module _ {A B : Type 0} (decode : Doc → Result A) (row : A → B) (spec : String → Option Doc → B)
      (decoded : (d : Doc) (r : A) → decode d ≡ ok r → row r ≡ spec (date_of d) (some d)) where
    decode_all-rows :
        (ds : List Doc) (rows : List A)
        → All (λ d. point_at (date_of d) ≡ some d) ds
        → decode_all decode ds ≡ ok rows
        → map row rows ≡ map (λ date. spec date (point_at date)) (map date_of ds)
    unfolding decode_all
    decode_all-rows [] rows h e = ground arith
    decode_all-rows (d ∷ ds) rows (p, h) e =
        let (r, rs, here, there, both) = decode_all-cons decode d ds e in
        rw both (
          ap₂ ◌∷◌ (decoded d r here ∙ ap (spec (date_of d)) (sym p))
            (decode_all-rows ds rs h there))

    -- What a query by a range of dates returns, if it returns.
    pub query-Lists :
        (b : Bool) {out : List B}
        → Finds index m c (range_of fixed from to) ("date" ∷ []) w
        → ((if b
              then throw err_invalid_date_range
              else ((do
                docs ← reads (m.find c (range_of fixed from to) ("date" ∷ []))
                reads (λ _. decode_all decode docs))
                  >>= λ rows. return (map row rows)))
            w).0
          ≡ ok out
        → (ds : List Doc) × (m.find c (range_of fixed from to) ("date" ∷ []) w ≡ ok ds)
          × Lists (λ date. has (point_at date)) from to (map date_of ds)
          × (out ≡ map (λ date. spec date (point_at date)) (map date_of ds))
    query-Lists b finds e =
        let (ds, rows, read, parsed, mapped) =
          query_read row w b (m.find c (range_of fixed from to) ("date" ∷ [])) (decode_all decode)
            e in
        let found = finds.at ds read in
        (
          ds,
          read,
          Found-Lists ds found,
          mapped ∙ decode_all-rows ds rows (points ds found.matching found.stored) parsed,
        )
