-- ===== src/TcpServer/Destroying.antt =====
-- The loop of `Stop` of src/tcp_server.cc over the connections.
use base_linux.Base.{
  inl, ℕ, zero, suc, ◌≡◌, ◌≢◌, inl, inr, refl, Option, none, some, List, [], ◌∷◌, Bool-cases, ◌==◌,
  ==_iff, arith, ltb,
}
use base_linux.EventLoopThreadPool
use base_linux.EventLoopThreadPool.{new_pool}
use base_linux.TcpServer.{Conn, TcpServer, Task, connection_destroy, destroy_all, stop}
use base_linux.TcpServer.Table.{item_at}
use base_linux.TcpServer.Lives.{tasks_of}

-- Where all connections are on the main loop, the loop of `Stop` runs through, and destroys each
-- name as often as it is listed.
pub destroys_none :
    (loop_main n : ℕ) (items : List (Option Conn))
    → ((i : ℕ) (conn : Conn) → item_at items i ≡ some conn → conn.owner_loop ≡ loop_main)
    → ((i : ℕ) (conn : Conn) → item_at items i ≡ some conn → conn.name ≢ n)
    → (tasks : List Task) × (destroy_all loop_main items ≡ some tasks) × (tasks_of n tasks ≡ [])
unfolding destroy_all tasks_of item_at
destroys_none loop_main n [] on_main others = ([], refl, refl)
destroys_none loop_main n (none ∷ items) on_main others =
    destroys_none loop_main n items (λ i. on_main (suc i)) (λ i. others (suc i))
destroys_none loop_main n (some conn ∷ items) on_main others =
    let (tasks, run, nothing) =
      destroys_none loop_main n items (λ i. on_main (suc i)) (λ i. others (suc i)) in
    let main = (==_iff conn.owner_loop loop_main).1 (on_main zero conn refl) in
    (
      connection_destroy conn ∷ tasks,
      rw (main, run) refl,
      ground (arith, others zero conn refl, nothing),
    )

pub destroys_one :
    (loop_main n k : ℕ) (one : Conn) (items : List (Option Conn))
    → ((i : ℕ) (conn : Conn) → item_at items i ≡ some conn → conn.owner_loop ≡ loop_main)
    → item_at items k ≡ some one
    → one.name ≡ n
    → ((i : ℕ) (conn : Conn) → item_at items i ≡ some conn → conn.name ≡ n → i ≡ k)
    → (tasks : List Task) × (destroy_all loop_main items ≡ some tasks)
      × (tasks_of n tasks ≡ connection_destroy one ∷ [])
unfolding destroy_all tasks_of item_at
destroys_one loop_main n k one [] on_main there named only = absurd (cc)
destroys_one loop_main n zero one (item ∷ items) on_main there named only =
    let (tasks, run, nothing) =
      destroys_none loop_main n items (λ i. on_main (suc i))
        (λ i conn at called. absurd (omega (arith, only (suc i) conn at called))) in
    let main = (==_iff one.owner_loop loop_main).1 (on_main zero one there) in
    (connection_destroy one ∷ tasks, rw there (rw (main, run) refl), ground (arith, named, nothing))
destroys_one loop_main n (suc k) one (none ∷ items) on_main there named only =
    destroys_one loop_main n k one items (λ i. on_main (suc i)) there named
      (λ i conn at called. omega (arith, only (suc i) conn at called))
destroys_one loop_main n (suc k) one (some conn ∷ items) on_main there named only =
    let (tasks, run, single) =
      destroys_one loop_main n k one items (λ i. on_main (suc i)) there named
        (λ i conn at called. omega (arith, only (suc i) conn at called)) in
    let main = (==_iff conn.owner_loop loop_main).1 (on_main zero conn refl) in
    let other : conn.name ≢ n = λ called. absurd (omega (arith, only zero conn refl called)) in
    (connection_destroy conn ∷ tasks, rw (main, run) refl, ground (arith, other, single))

destroys_elsewhere :
    (loop_main i : ℕ) (conn : Conn) (items : List (Option Conn))
    → item_at items i ≡ some conn
    → conn.owner_loop ≢ loop_main
    → destroy_all loop_main items ≡ none
unfolding destroy_all item_at
destroys_elsewhere loop_main i conn [] there away = absurd (cc)
destroys_elsewhere loop_main zero conn (item ∷ items) there away =
    rw there (elim (Bool-cases (conn.owner_loop == loop_main)) [
      | inl e ↦ absurd (away ((==_iff conn.owner_loop loop_main).0 e))
      | inr e ↦ rw e refl
    ])
destroys_elsewhere loop_main (suc i) conn (none ∷ items) there away =
    destroys_elsewhere loop_main i conn items there away
destroys_elsewhere loop_main (suc i) conn (some other ∷ items) there away =
    let later = destroys_elsewhere loop_main i conn items there away in
    elim (Bool-cases (other.owner_loop == loop_main)) [
      | inl e ↦ rw (e, later) refl
      | inr e ↦ rw e refl
    ]

-- While a connection is in the list whose loop is not the main one, that is, one of a thread of
-- the pool, Stop does not run through: when it comes to the connection, it uses a loop that has
-- been destroyed with its thread, or already the pool's Stop faults.
pub stop-destroy_all :
    (s : TcpServer) (i : ℕ) (conn : Conn)
    → item_at s.tcp_conn_list i ≡ some conn
    → conn.owner_loop ≢ s.loop_thread_pool.loop_main
    → stop s ≡ none
unfolding stop EventLoopThreadPool.stop
stop-destroy_all s i conn there away =
    let gone = destroys_elsewhere s.loop_thread_pool.loop_main i conn s.tcp_conn_list there away in
    elim (Bool-cases (ltb 0 s.loop_thread_pool.loop_main)) [
      | inl e ↦ rw (e, gone) refl
      | inr e ↦ rw e refl
    ]
