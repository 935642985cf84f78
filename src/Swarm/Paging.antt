-- ===== src/Swarm/Paging.antt =====
-- What a reader of the replay buffer gets.
use kazibee_home.Prelude.{
  ℕ, zero, suc, ◌+◌, ◌-◌, ◌≤◌, ltb, List, [], ◌∷◌, length, take, drop, keep, min, ◌≡◌, refl, arith,
  ap, ◌<◌, true, ◌∙◌, subst, sym, length-drop, Bool-cases, inl, inr,
}
use kazibee_home.Swarm.State.{StoredFrame, Machine}
use kazibee_home.Swarm.Machine.{page_of, next_cursor}
use kazibee_home.Swarm.Replay.{IsCounted, IsCounted-drop, IsRecent}

drop_none : (n : ℕ) (es : List StoredFrame) → es ≡ [] → es ≡ drop n es
drop_none zero es e = refl
drop_none (suc n) [] e = refl
drop_none (suc n) (x ∷ es) e = cc

keep_all :
    (after c : ℕ) (es : List StoredFrame)
    → IsCounted c es
    → after < c
    → keep (λ e. ltb after e.cursor) es ≡ es
unfolding IsCounted
keep_all after c [] h l = refl
keep_all after c (e ∷ es) (h, hs) l =
    let newer : ltb after e.cursor ≡ true = ground (arith, h, l) in
    rw newer (ap (λ xs. e ∷ xs) (keep_all after (c + 1) es hs (omega (arith, l))))

keep_newer :
    (after c : ℕ) (es : List StoredFrame)
    → IsCounted c es
    → c ≤ after + 1
    → keep (λ e. ltb after e.cursor) es ≡ drop (after + 1 - c) es
unfolding IsCounted
keep_newer after c [] h l = drop_none (after + 1 - c) [] refl
keep_newer after c (e ∷ es) (h, hs) l = elim (Bool-cases (ltb after e.cursor)) [
  | inl n ↦
      let none_older : after + 1 - c ≡ 0 = ground (arith, n, h, l) in
      rw n (
        ap (λ xs. e ∷ xs) (keep_all after (c + 1) es hs (ground (arith, n, h)))
        ∙ ap (λ k. drop k (e ∷ es)) (sym none_older))
  | inr o ↦
      let one_older : after + 1 - c ≡ suc (after + 1 - (c + 1)) = ground (arith, o, h, l) in
      rw o (
        keep_newer after (c + 1) es hs (ground (arith, o, h))
        ∙ ap (λ k. drop k (e ∷ es)) (sym one_older))
]

IsCounted-take : (n c : ℕ) (es : List StoredFrame) → IsCounted c es → IsCounted c (take n es)
unfolding IsCounted
IsCounted-take zero c es h = tt
IsCounted-take (suc n) c [] h = tt
IsCounted-take (suc n) c (e ∷ es) (h, hs) = (h, IsCounted-take n (c + 1) es hs)

length-take-min : (n : ℕ) (es : List StoredFrame) → length (take n es) ≡ min n (length es)
length-take-min zero es = omega arith
length-take-min (suc n) [] = omega arith
length-take-min (suc n) (e ∷ es) = omega (arith, length-take-min n es)

next_cursor-counted :
    (after : ℕ) (es : List StoredFrame)
    → IsCounted (after + 1) es
    → next_cursor after es ≡ after + length es
unfolding IsCounted next_cursor
next_cursor-counted after [] h = omega arith
next_cursor-counted after (e ∷ es) (h, hs) =
    next_cursor-counted e.cursor es (subst (λ k. IsCounted (k + 1) es) (sym h) hs)
    ∙ omega (arith, h)

-- A reader whose cursor has not fallen behind the buffer gets the frames right after it, in order and
-- without a gap, as many as the buffer has or the limit allows; its next cursor is that of the last
-- frame it got, so that the next read goes on from there.
pub page_goes_on_from_the_cursor :
    (after limit : ℕ) (s : Machine)
    → IsRecent s
    → s.cursor ≤ after + length s.events
    → let page = page_of after limit s.events in
      IsCounted (after + 1) page
      × (length page ≡ min limit (s.cursor - after))
      × (next_cursor after page ≡ after + length page)
unfolding page_of
page_goes_on_from_the_cursor after limit s h near =
    let first = s.cursor + 1 - length s.events in
    let n = after + 1 - first in
    let newer =
      keep_newer after first s.events h.counted (omega (arith, near, h.few, h.all_or_full)) in
    let counted =
      IsCounted-drop n first (after + 1) s.events (omega (arith, near, h.few, h.all_or_full))
        h.counted in
    let page = IsCounted-take limit (after + 1) (drop n s.events) counted in
    rw newer (
      page,
      length-take-min limit (drop n s.events)
          ∙ omega (arith, length-drop n s.events, near, h.few, h.all_or_full),
      next_cursor-counted after (take limit (drop n s.events)) page,
    )
