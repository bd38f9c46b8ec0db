-- ===== src/Programs/Cat/Loop.antt =====
-- The loop of syscalls/ece391cat.c prints the file.
use Prim.Native.String.{String}
use pony_os.Base.{
  ℕ, zero, suc, ◌+◌, ◌-◌, ◌*◌, ◌/◌, ◌%◌, ◌^◌, ◌≤◌, ◌≡◌, ◌≢◌, refl, ap, sym, ◌∙◌, arith, List, pos,
  returns,
}
use mathlib.Core.Path.{subst}
use native.Mathlib.Decide.{ℕ_discrete}
use pony_os.Memory.{translate, load}
use pony_os.FileSystem.{inode_length, bytes_at}
use pony_os.Paging.{Paging}
use pony_os.Process.{FileDesc, Kernel, memory_of, task_of}
use pony_os.Screen.{Screen, puts_scroll, video_page}
use pony_os.Screen.Cursor.{puts_scroll-InRange}
use pony_os.Screen.Printing.{
  Alike, puts_scroll-Steady, page_of, puts_scroll-append, puts_scroll-Alike_both, puts_scroll_page,
}
use pony_os.SystemCall.{read, write}
use pony_os.SystemCall.Writing.{printed, write_terminal}
use pony_os.Programs.Cat.{cat_loop}
use pony_os.Programs.Cat.Reading.{IsPrintable, At, part, part-add, chunk, start-At, read_step}

module _ (buf : ℕ) (k0 : Kernel) (p fd : ℕ) (h : IsPrintable buf k0 p fd) where
  abbrev file : FileDesc
  file = (k0.pcbs p).file_array fd

  abbrev page : ℕ
  page = video_page k0.screen

  abbrev size : ℕ
  size = inode_length (task_of k0) k0.fs (memory_of k0) file.inode

  abbrev text : ℕ → ℕ → List ℕ
  text = part buf k0 p fd

  abbrev next : ℕ → ℕ
  next = chunk buf k0 p fd h

  abbrev Now : ℕ → ℕ → Kernel → Type 0
  Now = At buf k0 p fd

  module _ (n : ℕ) where
    printed_kept :
        (g : ℕ) (k1 : Kernel)
        → Now (n + g) n k1
        → (b : ℕ) → translate (task_of k0) b / 0x1000 ≢ page
        → load (task_of k0) (puts_scroll (text (file.file_position + n) g) k1.screen).memory b
          ≡ load (task_of k0) (memory_of k1) b
    unfolding load
    printed_kept g k1 at1 b off =
        let same_page : video_page k1.screen ≡ page = page_of k0.screen k1.screen at1.paging in
        ap (λ (v : ℕ). v % 256)
          (puts_scroll_page (text (file.file_position + n) g) k1.screen (translate (task_of k0) b)
            (omega (arith, h.low)) at1.range (rw same_page off))

    printed_shown :
        (g : ℕ) (k1 : Kernel)
        → Now (n + g) n k1
        → Alike page
            (puts_scroll (text file.file_position (n + g)) k0.screen)
            (puts_scroll (text (file.file_position + n) g) k1.screen)
    printed_shown g k1 at1 =
        let given = text (file.file_position + n) g in
        let before = puts_scroll (text file.file_position n) k0.screen in
        let same_page : video_page before ≡ page =
          page_of k0.screen before (puts_scroll-Steady (text file.file_position n) k0.screen).0 in
        let both : puts_scroll (text file.file_position (n + g)) k0.screen
            ≡ puts_scroll given before =
          ap (λ (z : List ℕ). puts_scroll z k0.screen) (part-add buf k0 p fd n g file.file_position)
          ∙ puts_scroll-append (text file.file_position n) given k0.screen in
        subst (λ (z : Screen). Alike page z (puts_scroll given k1.screen)) (sym both)
          (puts_scroll-Alike_both page given before k1.screen same_page (omega (arith, h.low))
            at1.shown)

    write_step :
        (g : ℕ) (k1 : Kernel)
        → Now (n + g) n k1
        → bytes_at (task_of k0) (memory_of k1) buf g ≡ text (file.file_position + n) g
        → g ≤ 1024
        → (k2 : Kernel) × (write k1 1 buf g ≡ returns (pos g, k2)) × Now (n + g) (n + g) k2
    write_step g k1 at1 bytes short =
        let given = text (file.file_position + n) g in
        let own_task : task_of k1 ≡ task_of k0 =
          ap (λ (q : Paging). (q.page_dir 32).aligned_address) at1.paging in
        let same_page : video_page k1.screen ≡ page = page_of k0.screen k1.screen at1.paging in
        let before = puts_scroll (text file.file_position n) k0.screen in
        (
          record (printed k1 p at1.current buf g) { screen = puts_scroll given k1.screen },
          write_terminal k1 p at1.current buf g at1.ready (omega arith)
              ∙ ap
                  (λ (z : List ℕ). returns (
                    pos g,
                    record (printed k1 p at1.current buf g) { screen = puts_scroll z k1.screen },
                  ))
                  (ap (λ (t : ℕ). bytes_at t (memory_of k1) buf g) own_task ∙ bytes),
          record {
            current = at1.current;
            fs = at1.fs;
            paging = (puts_scroll-Steady given k1.screen).0 ∙ at1.paging;
            desc = at1.desc;
            ready = at1.ready;
            range = puts_scroll-InRange given k1.screen at1.range;
            kept = λ b out off. printed_kept g k1 at1 b off ∙ at1.kept b out off;
            shown = printed_shown g k1 at1;
          },
        )

  module _ (literal : String → ℕ) where
    abbrev pub all : ℕ
    all = size - file.file_position

    all_of :
        (n : ℕ) (k : Kernel)
        → next n ≡ 0
        → file.file_position + n ≤ size
        → Now (n + next n) n k
        → Now all all k
    all_of n k end in_file at =
        let whole : n ≡ all = omega arith in
        let read_all : n + next n ≡ all = omega arith in
        subst (λ (r : ℕ). Now r all k) read_all (subst (λ (t : ℕ). Now (n + next n) t k) whole at)

    last_round :
        (f n : ℕ) (k : Kernel)
        → Now n n k
        → file.file_position + n ≤ size
        → next n ≡ 0
        → (k' : Kernel) × (cat_loop literal buf (suc f) fd k ≡ returns (0, k')) × Now all all k'
    unfolding cat_loop
    last_round f n k at in_file end =
        let (k', done, at', bytes) = read_step buf k0 p fd h n k at in_file in
        (k', rw (done, end) refl, all_of n k' end in_file at')

    copies :
        (f g : ℕ) (k k1 k2 : Kernel)
        → g ≢ 0
        → g ≤ 1024
        → (read k fd buf 1024 ≡ returns (pos g, k1))
        → (write k1 1 buf g ≡ returns (pos g, k2))
        → cat_loop literal buf (suc f) fd k ≡ cat_loop literal buf f fd k2
    unfolding cat_loop
    copies f zero k k1 k2 more short done wrote = absurd (more refl)
    copies f (suc g) k k1 k2 more short done wrote =
        let same : suc g % 2 ^ 32 ≡ suc g = omega arith in rw (done, same, wrote) refl

    printing_round :
        (f n : ℕ) (k : Kernel)
        → Now n n k
        → file.file_position + n ≤ size
        → next n ≢ 0
        → (k' : Kernel) × (cat_loop literal buf (suc f) fd k ≡ cat_loop literal buf f fd k')
          × Now (n + next n) (n + next n) k'
    unfolding cat_loop
    printing_round f n k at in_file more =
        let (k1, done, at1, bytes) = read_step buf k0 p fd h n k at in_file in
        let (k2, wrote, at2) = write_step n (next n) k1 at1 bytes (omega arith) in
        (k2, copies f (next n) k k1 k2 more (omega arith) done wrote, at2)

    rounds :
        (f n : ℕ) (k : Kernel)
        → Now n n k
        → file.file_position + n ≤ size
        → size ≤ file.file_position + n + 1024 * f
        → (k' : Kernel) × (cat_loop literal buf (suc f) fd k ≡ returns (0, k')) × Now all all k'
    rounds zero n k at in_file enough = last_round zero n k at in_file (omega arith)
    rounds (suc f) n k at in_file enough = elim (ℕ_discrete (next n) 0) [
      | yes end ↦ last_round (suc f) n k at in_file end
      | no more ↦
          let (k1, once, at1) = printing_round (suc f) n k at in_file more in
          let (k', done, at') = rounds f (n + next n) k1 at1 (omega arith) (omega arith) in
          (k', once ∙ done, at')
    ]

-- For a process whose standard output is open, and a descriptor of a file that is apart from the
-- buffer and from the page that the terminal prints on: the loop of cat returns 0, after one turn
-- for each 1024 bytes and one that finds the end, and has printed just the file's bytes from the
-- descriptor's position on. The terminal's page, its cursors and its tables are as if these bytes
-- had been printed at once; the descriptor then stands at the end of the file.
pub cat_loop_lem :
    (literal : String → ℕ) (buf : ℕ) (k : Kernel) (p fd f : ℕ)
    → IsPrintable buf k p fd
    → let d = (k.pcbs p).file_array fd in
      let l = inode_length (task_of k) k.fs (memory_of k) d.inode in
      l ≤ d.file_position + 1024 * f
      → (k' : Kernel) × (cat_loop literal buf (suc f) fd k ≡ returns (0, k'))
        × Alike
            (video_page k.screen)
            (puts_scroll (part buf k p fd d.file_position (l - d.file_position)) k.screen)
            k'.screen
        × ((k'.pcbs p).file_array fd ≡ record d { file_position = l })
cat_loop_lem literal buf k p fd f h enough =
    let (k', done, at) =
      rounds buf k p fd h literal f 0 k (start-At buf k p fd h) (omega (arith, h.within))
        (omega arith) in
    (
      k',
      done,
      at.shown,
      at.desc
          ∙ ap (λ (a : ℕ). record ((k.pcbs p).file_array fd) { file_position = a })
              (omega (arith, h.within)),
    )
