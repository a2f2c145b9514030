-- ===== src/Completion/Placing.antt =====
-- The buckets of completion (src/grafast_py/completion.py, src/grafast_py/execute.py) one object at
-- a time: the objects' results put back, and a field's column scattered over its parents.
use grafast_py.Prelude.{String, Bool, List, [], ◌∷◌, ◌++◌, map, ◌≡◌, refl, ap, ◌∙◌}
use grafast_py.Completion.Defs.{
  Completed, Entry, Located, Parent, Placed, Raw, Slot, Status, dead, empty, live, open_at, settled,
  write_value, assembled, add_key, name,
}
use grafast_py.Completion.Loops.{
  entry_with, fill, live_slots, opened, scatter, slot_if_live, assemble, fresh, scatter_one,
}
use grafast_py.Completion.Reference.{Outcome, field_value, gather, object_value}

module _ {V J E : Type 0} (f : Entry V J E → Entry V J E × List (Located E)) where
  pub fill-opened :
      (ps : List (Placed V J E))
      → fill ps (assemble (map (λ e. (f e).0) (fresh (opened ps))))
        ≡ map (λ p. (object_value f p).0) ps
  unfolding fill opened
  fill-opened [] = refl
  fill-opened (settled c ∷ ps) = ap (λ l. c ∷ l) (fill-opened ps)
  fill-opened (open_at p ∷ ps) =
      ap (λ l. assembled (f (entry_with p (live empty))).0.status ∷ l) (fill-opened ps)

  pub gather-opened :
      (ps : List (Placed V J E))
      → gather (λ e. (f e).1) (fresh (opened ps)) ≡ gather (λ p. (object_value f p).1) ps
  unfolding opened
  gather-opened [] = refl
  gather-opened (settled c ∷ ps) = gather-opened ps
  gather-opened (open_at p ∷ ps) =
      ap (λ l. (f (entry_with p (live empty))).1 ++ l) (gather-opened ps)

module _ {V J E : Type 0} (nn : Bool) (n : String) (G : Slot V E → Outcome J E)
    (rd : Parent V → Raw V E) where
  abbrev slot_at : Parent V → Slot V E
  slot_at p = record { path = add_key p.path (name n); raw = rd p }

  -- The errors below the field of an entry, and those caught at it.
  abbrev errors_below : Parent V → Status J E → List (Located E)
  errors_below p (dead b) = []
  errors_below p (live d) = (G (slot_at p)).1

  abbrev errors_caught : Parent V → Status J E → List (Located E)
  errors_caught p (dead b) = []
  errors_caught p (live d) = (write_value nn n d (G (slot_at p)).0).1

  abbrev pub below : Entry V J E → List (Located E)
  below e = errors_below e.parent e.status

  abbrev pub caught : Entry V J E → List (Located E)
  caught e = errors_caught e.parent e.status

  abbrev pub one_field : Entry V J E → Entry V J E × List (Located E)
  one_field e = field_value nn n G e.parent e.status (rd e.parent)

  abbrev pub slots_for : List (Entry V J E) → List (Slot V E)
  slots_for es = live_slots n es (map (λ e. rd e.parent) es)

  field_errors :
      (p : Parent V) (st : Status J E)
      → (field_value nn n G p st (rd p)).1 ≡ errors_below p st ++ errors_caught p st
  field_errors p (dead b) = refl
  field_errors p (live d) = refl

  pub one_field-errors : (e : Entry V J E) → (one_field e).1 ≡ below e ++ caught e
  one_field-errors e = field_errors e.parent e.status

  field_parent : (p : Parent V) (st : Status J E) → (field_value nn n G p st (rd p)).0.parent ≡ p
  field_parent p (dead b) = refl
  field_parent p (live d) = refl

  pub one_field-parent : (e : Entry V J E) → (one_field e).0.parent ≡ e.parent
  one_field-parent e = field_parent e.parent e.status

  gather-slot_if_live :
      (p : Parent V) (st : Status J E) (rest : List (Slot V E)) (bs : List (Located E))
      → gather (λ s. (G s).1) rest ≡ bs
      → gather (λ s. (G s).1) (slot_if_live n p.path st (rd p) rest) ≡ errors_below p st ++ bs
  gather-slot_if_live p (dead b) rest bs q = q
  gather-slot_if_live p (live d) rest bs q = ap (λ l. (G (slot_at p)).1 ++ l) q

  pub gather-slots_for :
      (es : List (Entry V J E)) → gather (λ s. (G s).1) (slots_for es) ≡ gather below es
  unfolding live_slots
  gather-slots_for [] = refl
  gather-slots_for (e ∷ es) =
      gather-slot_if_live e.parent e.status (slots_for es) (gather below es) (gather-slots_for es)

  scatter_one-slot_if_live :
      (p : Parent V) (st : Status J E) (rest : List (Slot V E))
      (more : List (Completed J E) → List (Entry V J E) × List (Located E))
      → scatter_one nn n p st (map (λ s. (G s).0) (slot_if_live n p.path st (rd p) rest)) more ≡ (
        (field_value nn n G p st (rd p)).0 ∷ (more (map (λ s. (G s).0) rest)).0,
        errors_caught p st ++ (more (map (λ s. (G s).0) rest)).1,
      )
  scatter_one-slot_if_live p (dead b) rest more = refl
  scatter_one-slot_if_live p (live d) rest more = refl

  pub scatter-slots_for :
      (es : List (Entry V J E))
      → scatter nn n es (map (λ s. (G s).0) (slots_for es))
        ≡ (map (λ e. (one_field e).0) es, gather caught es)
  unfolding scatter live_slots
  scatter-slots_for [] = refl
  scatter-slots_for (e ∷ es) =
      scatter_one-slot_if_live e.parent e.status (slots_for es) (scatter nn n es)
      ∙ ap (λ (r : List (Entry V J E) × List (Located E)). ((one_field e).0 ∷ r.0, caught e ++ r.1))
          (scatter-slots_for es)
