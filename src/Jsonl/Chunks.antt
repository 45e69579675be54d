-- ===== src/Jsonl/Chunks.antt =====
-- packages/bridge/src/pi/jsonl.ts: the records do not depend on how the stream is cut into chunks.
use pi_mob.Prelude.{
  ℕ, ◌≡◌, refl, Option, none, some, List, [], ◌∷◌, ◌++◌, arith, ltb, length, Bool-cases, inl, inr,
  sym, ap, ◌∙◌, subst, ltb→lt,
}
use mathlib.Core.List.{flatten}
use pi_mob.Jsonl.{DecodedRecord, Decoder, push}
use pi_mob.Jsonl.Walk.{Walked, walk, resume, walk-append}
use pi_mob.Jsonl.Pushes.{IsReady, returned, settled, behind, push-walk, too_long, settled-graft}
use pi_mob.Jsonl.Ready.{push-Pushed, Pushed}

module _ {V : Type 0} (decode : List ℕ → Option (List ℕ)) (parse : List ℕ → Option V) where
  abbrev pub State : Type 0
  State = Option (Decoder × List (DecodedRecord V))

  -- A call after a push, if that does not throw.
  pub next_push : (Decoder → State) → State → State
  next_push next none = none
  next_push next (some (d, rs)) = behind decode parse rs (next d)

  -- The chunks of a stream one after another; `none` if a push throws.
  unfoldable pub push_all : Decoder → List (List ℕ) → State
  unfolding next_push
  push_all d [] = some (d, [])
  push_all d (chunk ∷ chunks) =
      next_push (λ d'. push_all d' chunks) (returned (push decode parse d chunk))

  -- A push after another.
  pub then_push : List ℕ → State → State
  unfolding next_push
  then_push bs = next_push (λ d. returned (push decode parse d bs))

  settled_same :
      (d : Decoder) (line : List ℕ) (count : ℕ) (w : Walked V)
      → settled decode parse (record d { pending = line; record_count = count }) w
        ≡ settled decode parse d w
  unfolding settled
  settled_same d line count none = refl
  settled_same d line count (some w) = refl

  settled_split :
      (d : Decoder) (bs : List ℕ) (w : Walked V)
      → IsReady d
      → ((d' : Decoder) (rs : List (DecodedRecord V))
          → settled decode parse d w ≡ some (d', rs)
          → IsReady d')
      → settled decode parse d (resume decode parse d.max_bytes bs w)
        ≡ then_push bs (settled decode parse d w)
  unfolding settled resume then_push behind
  settled_split d bs none h k = refl
  settled_split d bs (some (count, line, rs)) h k =
      elim (Bool-cases (ltb d.max_bytes (length line))) [
        | inl e ↦ rw (settled-graft, e, too_long decode parse d count line bs (ltb→lt _ _ e))
        | inr e ↦
            let d' : Decoder = record d { pending = line; record_count = count } in
            rw (settled-graft, e)
              (ap (behind decode parse rs) (
                sym (
                  push-walk decode parse d' bs (k d' rs (rw e))
                  ∙ settled_same d line count (walk decode parse d.max_bytes count line bs))))
      ]

  pub push-IsReady :
      (d : Decoder) (chunk : List ℕ) (d' : Decoder) (rs : List (DecodedRecord V))
      → IsReady d
      → returned (push decode parse d chunk) ≡ some (d', rs)
      → IsReady d'
  push-IsReady d chunk d' rs h e =
      let p : Pushed decode parse d (some (d', rs)) =
        subst (Pushed decode parse d) e (push-Pushed decode parse d chunk h) in
      p.0

  -- Pushing two stretches of bytes at once is pushing them one after the other.
  pub push-append :
      (d : Decoder) (us bs : List ℕ)
      → IsReady d
      → returned (push decode parse d (us ++ bs)) ≡ then_push bs (returned (push decode parse d us))
  push-append d us bs h =
      push-walk decode parse d (us ++ bs) h
      ∙ ap (settled decode parse d)
          (walk-append decode parse d.max_bytes d.record_count d.pending us bs)
      ∙ settled_split d bs w h
          (λ d' rs e. push-IsReady d us d' rs h (push-walk decode parse d us h ∙ e))
      ∙ ap (then_push bs) (sym (push-walk decode parse d us h))
    where
      w : Walked V
      w = walk decode parse d.max_bytes d.record_count d.pending us

  push_nil : (d : Decoder) → IsReady d → returned (push decode parse d []) ≡ some (d, [])
  unfolding push
  push_nil d h = ground arith

  next_push-eq :
      (f g : Decoder → State) (s : State)
      → ((d : Decoder) (rs : List (DecodedRecord V)) → s ≡ some (d, rs) → f d ≡ g d)
      → next_push f s ≡ next_push g s
  unfolding next_push
  next_push-eq f g none h = refl
  next_push-eq f g (some (d, rs)) h = ap (behind decode parse rs) (h d rs refl)

  -- From a ready decoder, the chunks of a stream give the records of the whole stream pushed at once
  -- and leave the decoder in the same state; one of them throws exactly if the whole push throws.
  pub push_all-push :
      (chunks : List (List ℕ)) (d : Decoder)
      → IsReady d
      → push_all d chunks ≡ returned (push decode parse d (flatten chunks))
  unfolding push_all flatten
  push_all-push [] d h = sym (push_nil d h)
  push_all-push (chunk ∷ chunks) d h =
      next_push-eq (λ d'. push_all d' chunks)
        (λ d'. returned (push decode parse d' (flatten chunks)))
        (returned (push decode parse d chunk))
        (λ d' rs e. push_all-push chunks d' (push-IsReady d chunk d' rs h e))
      ∙ unfold then_push in sym (push-append d chunk (flatten chunks) h)
