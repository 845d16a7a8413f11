-- ===== src/Tests/Store/Writes.antt =====
-- The store against the driver's documented behaviour.
use quick_bite_analytics_ser.Prelude.{
  ℤ, pos, ◌+ℤ◌, String, ◌==◌, ◌≡◌, refl, sym, ap, ◌∙◌, Bool, true, false, ◌&&◌, Option, none, some,
  List, [], ◌∷◌, if◌then◌else◌, Bool-cases, inl, inr, eq_refl, +ℤ_assoc, +ℤ-zero, subst,
}
use quick_bite_analytics_ser.Go.Effect.{ok}
use quick_bite_analytics_ser.Mongo.Bson.{
  Doc, Update, WriteModel, Value, lookup, or_else, as_int, field, same_fields, key_eq, has, updated,
  incremented, keeps_key, inc_total, inc_of, batch_on,
}
use quick_bite_analytics_ser.Mongo.Driver.{MongoLaws, inserted, duplicate_key}
use quick_bite_analytics_ser.Analytics.Repository.Collections.{unique_index}
use quick_bite_analytics_ser.Tests.Store.{
  Memory, Points, updating, memory, store_refusing, bulk, put, put_all, new_in, insertion,
}
use quick_bite_analytics_ser.Tests.Store.Fields.{
  lookup-upserted, same_fields_refl, key_eq_refl, key_of_unique,
}

put_all-elsewhere :
    (c d : String) (g : Doc) (ws : List WriteModel) (p : Points)
    → (c == d) ≡ false
    → put_all c ws p d g ≡ p d g
put_all-elsewhere c d g [] p ne = refl
put_all-elsewhere c d g (w ∷ ws) p ne =
    put_all-elsewhere c d g ws (put c w.filter w.update p) ne ∙ rw ne refl

counter_added :
    (o : Option ℤ) (old other : Option Value)
    → has o ≡ true
    → as_int (or_else (incremented o old) other)
      ≡ as_int old +ℤ elim o [ some n ↦ n | none ↦ pos 0 ]
counter_added none old other h = cc
counter_added (some n) old other h = refl

and3 : (a b c d : Bool) → ((a && (b && c)) && d) ≡ true → (a ≡ true) × (c ≡ true) × (d ≡ true)
and3 true true true true h = (refl, refl, refl)
and3 false b c d h = cc
and3 true false c d h = cc
and3 true true false d h = cc
and3 true true true false h = cc

put-counter :
    (c : String) (g : Doc) (w : WriteModel) (p : Points) (k : String)
    → same_fields w.filter g ≡ true
    → has (lookup k w.update.inc) ≡ true
    → as_int (field k (put c w.filter w.update p c g))
      ≡ as_int (field k (p c g)) +ℤ (if key_eq w.filter g then inc_of k w.update else pos 0)
put-counter c g w p k same counts = elim (Bool-cases (key_eq w.filter g)) [
  | inl hit ↦
      rw (eq_refl c, same, hit)
        (ap as_int (lookup-upserted k w.filter w.update (p c g))
          ∙ counter_added (lookup k w.update.inc) (field k (p c g)) _ counts)
  | inr miss ↦ rw (eq_refl c, same, miss) (sym (+ℤ-zero _))
]

put_all-row :
    (c : String) (g : Doc) (ws : List WriteModel) (p : Points) (k : String)
    → batch_on k g ws ≡ true
    → as_int (field k (put_all c ws p c g)) ≡ as_int (field k (p c g)) +ℤ inc_total k g ws
unfolding inc_total
put_all-row c g [] p k on = sym (+ℤ-zero _)
put_all-row c g (w ∷ ws) p k on =
    let (same, counts, on') =
      and3 (same_fields w.filter g) (keeps_key w.filter w.update) (has (lookup k w.update.inc))
        (batch_on k g ws) on in
    put_all-row c g ws (put c w.filter w.update p) k on'
    ∙ ap (λ n. n +ℤ inc_total k g ws) (put-counter c g w p k same counts)
    ∙ +ℤ_assoc _ _ _

module _ (c d : String) (f g : Doc) (u : Update) (w : Memory) where
  updating-elsewhere :
      (b : Bool) → (c == d) ≡ false → (updating b c f u w).1.points d g ≡ w.points d g
  updating-elsewhere true ne = refl
  updating-elsewhere false ne = rw ne refl

module _ (c : String) (f g : Doc) (u : Update) (w : Memory) where
  updating-miss :
      (b : Bool)
      → same_fields f g ≡ true
      → key_eq f g ≡ false
      → (updating b c f u w).1.points c g ≡ w.points c g
  updating-miss true same ne = refl
  updating-miss false same ne = rw (eq_refl c, same, ne) refl

  updating-hit :
      (b : Bool) (k : String)
      → same_fields f g ≡ true
      → key_eq f g ≡ true
      → (updating b c f u w).0 ≡ ok tt
      → field k ((updating b c f u w).1.points c g) ≡ updated f u k (w.points c g)
  updating-hit true k same hit done = cc
  updating-hit false k same hit done =
      rw (eq_refl c, same, hit) (lookup-upserted k f u (w.points c g))

new_in-keeps : (b : Bool) (o : Option Doc) (doc : Doc) → has o ≡ true → new_in b o doc ≡ o
new_in-keeps b none doc h = cc
new_in-keeps b (some e) doc h = refl

new_in-false : (o : Option Doc) (doc : Doc) → new_in false o doc ≡ o
new_in-false none doc = refl
new_in-false (some e) doc = refl

insertion_cases :
    (o : Option Doc)
    → (insertion (has o) ≡ inserted → o ≡ none) × (insertion (has o) ≡ duplicate_key → has o ≡ true)
insertion_cases none = (λ h. refl, λ h. cc)
insertion_cases (some d) = (λ h. cc, λ h. refl)

bulk-elsewhere :
    (c d : String) (g : Doc) (ws : List WriteModel) (w : Memory)
    → (c == d) ≡ false
    → (bulk c ws w).1.points d g ≡ w.points d g
bulk-elsewhere c d g [] w ne = refl
bulk-elsewhere c d g (x ∷ ws) w ne = put_all-elsewhere c d g (x ∷ ws) w.points ne

bulk-row :
    (c : String) (g : Doc) (ws : List WriteModel) (w : Memory) (k : String)
    → batch_on k g ws ≡ true
    → as_int (field k ((bulk c ws w).1.points c g))
      ≡ as_int (field k (w.points c g)) +ℤ inc_total k g ws
bulk-row c g [] w k on = put_all-row c g [] w.points k on
bulk-row c g (x ∷ ws) w k on = put_all-row c g (x ∷ ws) w.points k on

pub store-MongoLaws :
    (refuses : Memory → String → Bool) → MongoLaws unique_index (store_refusing refuses)
store-MongoLaws refuses = record {
  update_elsewhere = λ c d f g u w ne. updating-elsewhere c d f g u w (refuses w c) ne;
  update_miss = λ c f g u w same keeps ne. updating-miss c f g u w (refuses w c) same ne;
  update_hit =
      λ c f g u w k same keeps hit done. updating-hit c f g u w (refuses w c) k same hit done;
  bulk_elsewhere = λ c d g ws w ne. bulk-elsewhere c d g ws w ne;
  bulk_row = λ c g ws w k on done. bulk-row c g ws w k on;
  insert_elsewhere = λ c d doc g w ne. rw ne (new_in-false (w.points d g) doc);
  insert_keeps = λ c doc g w there. new_in-keeps _ (w.points c g) doc there;
  insert_miss = λ c doc g w no. rw (eq_refl c, no) (new_in-false (w.points c g) doc);
  insert_done = λ c doc f w fs cs done.
      let free : w.points c f ≡ none =
        subst (λ h. w.points c h ≡ none) (sym (key_of_unique doc f (unique_index c) fs cs))
          ((insertion_cases _).0 done) in
      (free, rw (eq_refl c, cs, fs, free) refl);
  insert_duplicate = λ c doc f w fs cs dup.
      subst (λ h. has (w.points c h) ≡ true) (sym (key_of_unique doc f (unique_index c) fs cs))
        ((insertion_cases _).1 dup);
  delete_done = λ c f w fs done. rw (eq_refl c, same_fields_refl f, key_eq_refl f) refl;
  delete_miss = λ c f g w same ne. rw (eq_refl c, same, ne) refl;
  delete_elsewhere = λ c d f g w ne. rw ne refl;
  find_one_row = λ c f w o h. cc;
}

pub memory-MongoLaws : MongoLaws unique_index memory
memory-MongoLaws = store-MongoLaws (λ w c. c == w.down)
