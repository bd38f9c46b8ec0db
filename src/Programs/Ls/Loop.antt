-- ===== src/Programs/Ls/Loop.antt =====
-- The loop of syscalls/ece391ls.c prints the directory.
use Prim.Native.String.{String}
use pony_os.Base.{
  ℕ, zero, suc, ◌+◌, ◌-◌, ◌*◌, ◌%◌, ◌^◌, ◌≤◌, ◌<◌, ◌≡◌, refl, ap, sym, ◌∙◌, arith, List, [], ◌∷◌,
  ◌++◌, length, pos, returns,
}
use mathlib.Core.Path.{subst}
use pony_os.Memory.{Memory}
use pony_os.FileSystem.{bytes_at, count_of}
use pony_os.FileSystem.Lookup.{dir_name}
use pony_os.Process.{Kernel, memory_of, task_of}
use pony_os.Screen.{Screen, puts_scroll, video_page}
use pony_os.Screen.Printing.{
  Alike, puts_scroll-Steady, puts_scroll-nil, page_of, puts_scroll-append,
}
use pony_os.Strings.Names.{length-c_string}
use pony_os.SystemCall.{read, write}
use pony_os.Programs.{poke}
use pony_os.Programs.Ls.{ls_loop}
use pony_os.Programs.Ls.Directory.{IsListable, At, listing, start-At, read_end, read_entry}
use pony_os.Programs.Ls.Lines.{poke_step, write_step, line_bytes}

module _ (buf : ℕ) (k0 : Kernel) (p fd : ℕ) (h : IsListable buf k0 p fd) where
  abbrev task : ℕ
  task = task_of k0

  abbrev page : ℕ
  page = video_page k0.screen

  abbrev m0 : Memory
  m0 = memory_of k0

  abbrev first : ℕ
  first = k0.fs.current_dir_read_index

  abbrev total : ℕ
  total = count_of k0.fs.num_dir_entry

  abbrev names : ℕ → ℕ → List ℕ
  names = listing buf k0 p fd

  abbrev Now : ℕ → Screen → Kernel → Type 0
  Now = At buf k0 p fd

  module _ (literal : String → ℕ) where
    -- One turn of the loop.
    lists :
        (f l : ℕ) (k k1 k2 k3 : Kernel)
        → 0 < l
        → l < 33
        → (read k fd buf 32 ≡ returns (pos l, k1))
        → (poke (buf + l) b'\n' k1 ≡ returns (b'\n', k2))
        → (write k2 1 buf (l + 1) ≡ returns (pos (l + 1), k3))
        → ls_loop literal buf (suc f) fd k ≡ ls_loop literal buf f fd k3
    unfolding ls_loop
    lists f zero k k1 k2 k3 some_name short done poked wrote = absurd (omega arith)
    lists f (suc l) k k1 k2 k3 some_name short done poked wrote =
        let same : suc l % 2 ^ 32 ≡ suc l = omega arith in rw (done, same, poked, wrote) refl

    round :
        (f n : ℕ) (s : Screen) (k : Kernel)
        → Now n s k
        → first + n < total
        → video_page s ≡ page
        → (k' : Kernel) × (ls_loop literal buf (suc f) fd k ≡ ls_loop literal buf f fd k')
          × Now (n + 1) (puts_scroll (dir_name task k0.fs m0 (first + n) ++ (b'\n' ∷ [])) s) k'
    round f n s k at q own_page =
        let name = dir_name task k0.fs m0 (first + n) in
        let few = length-c_string task m0 32 (k0.fs.dir_table + 64 * (first + n)) in
        let (k1, done, at1, read_name) = read_entry buf k0 p fd h n s k at q in
        let (k2, poked, at2, stored) =
          poke_step buf k0 p fd h (n + 1) s k1 at1 (length name) (omega (arith, few)) in
        let (k3, wrote, at3) =
          write_step buf k0 p fd h (n + 1) s k2 at2 (length name + 1) (name ++ (b'\n' ∷ []))
            (omega (arith, few))
            (ap (λ (m : Memory). bytes_at task m buf (length name + 1)) stored
              ∙ line_bytes buf k0 p fd h (memory_of k1) name read_name)
            own_page in
        (
          k3,
          lists f (length name) k k1 k2 k3 (h.named_entries (first + n) q) (omega (arith, few)) done
              poked wrote,
          at3,
        )

    as_At : (n n' : ℕ) (s s' : Screen) (k : Kernel) → n ≡ n' → s ≡ s' → Now n s k → Now n' s' k
    as_At n n' s s' k e e' at =
        subst (λ (z : Screen). Now n' z k) e' (subst (λ (i : ℕ). Now i s k) e at)

    rounds :
        (left f n : ℕ) (s : Screen) (k : Kernel)
        → left ≤ f
        → left ≡ total - (first + n)
        → Now n s k
        → video_page s ≡ page
        → (k' : Kernel) × (ls_loop literal buf (suc f) fd k ≡ returns (0, k'))
          × Now (n + left) (puts_scroll (names (first + n) left) s) k'
    unfolding ls_loop
    rounds zero f n s k enough all at own_page =
        let (k', done, at', same) = read_end buf k0 p fd h n s k at (omega arith) in
        (k', rw done refl, as_At n (n + 0) s _ k' (omega arith) (sym (puts_scroll-nil s)) at')
    rounds (suc left) zero n s k enough all at own_page = absurd (omega arith)
    rounds (suc left) (suc f) n s k enough all at own_page =
        let line = dir_name task k0.fs m0 (first + n) ++ (b'\n' ∷ []) in
        let (k1, once, at1) = round (suc f) n s k at (omega arith) own_page in
        let (k2, rest, at2) =
          rounds left f (n + 1) (puts_scroll line s) k1 (omega arith) (omega arith) at1
            (page_of s (puts_scroll line s) (puts_scroll-Steady line s).0 ∙ own_page) in
        let next : first + (n + 1) ≡ first + n + 1 = omega arith in
        (
          k2,
          once ∙ rest,
          as_At (n + 1 + left) (n + suc left) _ _ k2 (omega arith)
              (ap (λ (i : ℕ). puts_scroll (names i left) (puts_scroll line s)) next
                ∙ sym (puts_scroll-append line (names (first + n + 1) left) s))
              at2,
        )

-- For a process whose standard output is open, and a descriptor of the directory, whose entries have
-- names and are apart from the buffer and from the page that the terminal prints on: with a turn for
-- each entry from the index of directory reads on, and one more, the loop of ls returns 0 and has
-- printed just their names in the order of the directory, cut after 32 characters, a line for each;
-- the terminal's page, its cursors and its tables are as if these lines had been printed at once.
pub ls_loop_lem :
    (literal : String → ℕ) (buf : ℕ) (k : Kernel) (p fd f : ℕ)
    → IsListable buf k p fd
    → let i = k.fs.current_dir_read_index in
      let n = count_of k.fs.num_dir_entry - i in
      n ≤ f
      → (k' : Kernel) × (ls_loop literal buf (suc f) fd k ≡ returns (0, k'))
        × Alike (video_page k.screen) (puts_scroll (listing buf k p fd i n) k.screen) k'.screen
        × (k'.fs ≡ record (k.fs) { current_dir_read_index = i + n })
ls_loop_lem literal buf k p fd f h enough =
    let i = k.fs.current_dir_read_index in
    let (k', done, at) =
      rounds buf k p fd h literal (count_of k.fs.num_dir_entry - i) f 0 k.screen k enough
        (omega arith) (start-At buf k p fd h) refl in
    (
      k',
      done,
      subst
          (λ (j : ℕ).
            Alike (video_page k.screen)
              (puts_scroll (listing buf k p fd j (count_of k.fs.num_dir_entry - i)) k.screen)
              k'.screen)
          (omega arith) at.shown,
      at.fs ∙ ap (λ (j : ℕ). record (k.fs) { current_dir_read_index = j }) (omega arith),
    )
