-- ===== src/Tests/Interleaving.antt =====
-- The cache with one call of GetPermissions that waits for its fetch.
use quick_bite_analytics_ser.Prelude.{
  pos, String, ◌==◌, ◌≡◌, refl, true, some, List, [], ◌∷◌, arith, if◌then◌else◌,
}
use quick_bite_analytics_ser.Mongo.Bson.{lookup}
use quick_bite_analytics_ser.Rbac.Cache.{Entry, with_entry, without, invalidate}
use quick_bite_analytics_ser.Rbac.Interleaving.{
  asked, fetched, Shared, hits, invalidate_shared, store, answers, stores, Run, stop, step,
}
use quick_bite_analytics_ser.Rbac.Interleaving.Fresh.{invalidate-Allowed}
use quick_bite_analytics_ser.Rbac.Interleaving.Overtaken.{
  Only, changed, overtaken, invalidate-overtaken,
}

-- the staff have no permission left
abbrev waiting : Shared
waiting = record {
  entries = ("owner", record { permissions = "analytics:read" ∷ []; cached_at = pos 5 }) ∷ [];
  pending = asked "staff" ∷ [];
  core = λ role. if role == "staff" then [] else "analytics:read" ∷ [];
  now = pos 10;
}

abbrev None : String → List String → Type 0
None role perms = perms ≡ []

abbrev refreshed : Shared
refreshed =
    store "staff" [] []
      (record (invalidate_shared "staff" waiting) { pending = fetched "staff" [] ∷ [] })

invalidate-Allowed_example : None "staff" []
unfolding with_entry without invalidate
invalidate-Allowed_example =
    invalidate-Allowed None "staff" (pos 300) waiting refreshed
      (record { permissions = []; cached_at = pos 10 }) refl (tt, tt)
      (step _ _ _ (answers (invalidate_shared "staff" waiting) [] [] "staff" refl)
        (step _ _ _ (stores _ [] [] "staff" [] refl) (stop _)))
      refl

invalidate-overtaken_example :
    Run
      (pos 300)
      (Only (pos 300) "staff" ("analytics:read" ∷ []))
      waiting
      (changed (pos 300) "staff" ("analytics:read" ∷ []) waiting)
    × ((changed (pos 300) "staff" ("analytics:read" ∷ []) waiting).core "staff"
        ≡ "analytics:read" ∷ [])
    × Run
        (pos 300)
        (Only (pos 300) "staff" ("analytics:read" ∷ []))
        (invalidate_shared "staff" (changed (pos 300) "staff" ("analytics:read" ∷ []) waiting))
        (overtaken (pos 300) "staff" ("analytics:read" ∷ []) waiting)
    × ((e : Entry) × (lookup "staff"
            (overtaken (pos 300) "staff" ("analytics:read" ∷ []) waiting).entries
          ≡ some e)
        × (hits (pos 300) (overtaken (pos 300) "staff" ("analytics:read" ∷ []) waiting) "staff"
            ≡ true)
        × (e.permissions ≡ waiting.core "staff"))
invalidate-overtaken_example =
    invalidate-overtaken (pos 300) "staff" ("analytics:read" ∷ []) waiting refl (omega arith)
