-- ===== src/MsgSock/Rpc/Xids.antt =====
-- The xids that `get_xid` chooses.
use xdrpp.Common.{
  ℕ, zero, suc, ◌+◌, ◌^◌, ◌≤◌, ◌<◌, ◌≡◌, ◌≢◌, refl, ap, arith, ◌⊎◌, inl, inr, true, false, not,
  ◌&&◌, Option, none, some, List, [], ◌∷◌, ◌++◌, ◌==◌, Bool-cases,
}
use xdrpp.Common.Result.{ok}
use xdrpp.Endian.{swap32}
use xdrpp.MsgSock.Rpc.{Rpc, find, emplace, word, next_xid, is_found, get_xid, send_call}

-- What `get_xid` may give: an xid that is no key of the table, or 0.
abbrev pub IsChoice : List (ℕ × ℕ) → ℕ → Type 0
IsChoice calls y = (y < 2 ^ 32) × ((y ≡ 0) ⊎ (find y calls ≡ none))

next_xid_lem : (x : ℕ) → x < 2 ^ 32 → next_xid x ≢ 0 → next_xid x ≡ x + 1
next_xid_lem x h n = omega arith

not_found : (o : Option ℕ) → is_found o ≡ false → o ≡ none
not_found none e = refl
not_found (some cb) e = absurd (cc)

goes_on : (y : ℕ) (o : Option ℕ) → (is_found o && not (y == 0)) ≡ true → y ≢ 0
goes_on y (some cb) e = ground arith
goes_on y none e = absurd (cc)

stops : (y : ℕ) (o : Option ℕ) → (is_found o && not (y == 0)) ≡ false → (y ≡ 0) ⊎ (o ≡ none)
stops y none e = inr refl
stops y (some cb) e = inl (ground arith)

-- The loop of `get_xid` ends within 2 ^ 32 - `xid_` turns, since `xid_` then has become 0. What it
-- gives is an xid that is no key of the table of calls, or 0, which may be one.
pub get_xid-IsChoice :
    (turns x : ℕ) (calls : List (ℕ × ℕ))
    → x < 2 ^ 32
    → 2 ^ 32 ≤ x + turns
    → (y : ℕ) × (get_xid turns x calls ≡ some y) × IsChoice calls y
unfolding get_xid
get_xid-IsChoice zero x calls h t = absurd (omega arith)
get_xid-IsChoice (suc turns) x calls h t =
    let y : ℕ = next_xid x in
    elim (Bool-cases (is_found (find y calls) && not (y == 0))) [
      | inl more ↦
          let up : y ≡ x + 1 = next_xid_lem x h (goes_on y (find y calls) more) in
          rw more (get_xid-IsChoice turns y calls (omega arith) (omega (arith, up)))
      | inr done ↦ rw done (y, refl, (omega arith, stops y (find y calls) done))
    ]

chosen :
    (turns x : ℕ) (calls : List (ℕ × ℕ))
    → find (next_xid x) calls ≡ none
    → get_xid (suc turns) x calls ≡ some (next_xid x)
unfolding get_xid
chosen turns x calls e = rw e refl

kept : (y cb old : ℕ) (calls : List (ℕ × ℕ)) → find y calls ≡ some old → emplace y cb calls ≡ calls
unfolding emplace
kept y cb old calls e = rw (e, emplace) refl

-- The keys of the table are xids as they stand in messages. On a little-endian machine `get_xid`
-- therefore tests another number than the one that `send_call` then uses: wherever the next xid is no
-- key, it is chosen, also if a call with that very xid is waiting under the key with the bytes
-- swapped. `send_call` then sends the call, but keeps the old entry, and the new callback is lost.
pub get_xid-send_call_clash :
    (turns x cb old : ℕ) (m : List ℕ) (r : Rpc)
    → find (next_xid x) r.calls ≡ none
    → find (swap32 (next_xid x)) r.calls ≡ some old
    → word false 0 m ≡ ok (swap32 (next_xid x))
    → (get_xid (suc turns) x r.calls ≡ some (next_xid x))
      × (send_call false m cb r ≡ ok (record r { sent = r.sent ++ (m ∷ []) }))
unfolding send_call emplace
get_xid-send_call_clash turns x cb old m r free pending first = (
  chosen turns x r.calls free,
  rw (first, send_call)
      (ap (λ calls. ok (record r { calls = calls; sent = r.sent ++ (m ∷ []) }))
        (kept (swap32 (next_xid x)) cb old r.calls pending)),
)
