-- ===== src/Company/Consistent.antt =====
-- When the employees and the tasks agree, and that single writes keep the agreement.
use mini_company.Prelude.{
  ℕ, ◌+◌, ◌≤◌, ◌≡◌, ◌≢◌, inl, inr, false, none, some, ◌==◌, is_some, Bool-cases, arith,
}
use mini_company.Prelude.Dict.{
  Dict, lookup, insert, remove, lookup-insert, lookup-remove, insert_cases, remove_cases, IsKeyed,
  insert-IsKeyed, remove-IsKeyed,
}
use mini_company.Tasks.Domain.{running, Task}
use mini_company.Employees.Domain.{Employee, working, employee_status_eq}
use mini_company.Company.World.{Runtime, World}

-- The task at `j` runs and belongs to the employee at `i`.
pub record IsRunningFor (tasks : Dict Task) (j i : ℕ) : Type 0 where
  pub task : Task
  pub found : lookup j tasks ≡ some task
  pub owned : task.employee_id ≡ i
  pub runs : task.status ≡ running

-- A write of a task leaves alone a task that runs, unless it is written over.
keeps_running :
    (tasks : Dict Task) (k j i : ℕ) (t : Task)
    → ((k ≡ j) → (t.employee_id ≡ i) × (t.status ≡ running))
    → IsRunningFor tasks j i
    → IsRunningFor (insert k t tasks) j i
keeps_running tasks k j i t same r = elim (Bool-cases (k == j)) [
  | inl e ↦ record {
    task = t;
    found = rw (lookup-insert, e);
    owned = (same (ground arith)).0;
    runs = (same (ground arith)).1;
  }
  | inr e ↦ record {
    task = r.task;
    found = rw (lookup-insert, e) r.found;
    owned = r.owned;
    runs = r.runs;
  }
]

module _ (runtime : Runtime) where
  -- No key stands twice, the stored entities carry their ids, ids still to be drawn are free, an employee is WORKING
  -- exactly when it has a current task, and that task is its own and RUNNING.
  pub record IsConsistent (drawn : ℕ) (tasks : Dict Task) (employees : Dict Employee) : Type 0 where
    pub keyed_tasks : IsKeyed tasks
    pub keyed_employees : IsKeyed employees
    pub task_id : (i : ℕ) (t : Task) → lookup i tasks ≡ some t → t.id ≡ some i
    pub employee_id : (i : ℕ) (e : Employee) → lookup i employees ≡ some e → e.id ≡ some i
    pub free_task : (k : ℕ) → drawn ≤ k → lookup (runtime.object_id k) tasks ≡ none
    pub free_employee : (k : ℕ) → drawn ≤ k → lookup (runtime.object_id k) employees ≡ none
    pub busy :
        (i : ℕ) (e : Employee)
        → lookup i employees ≡ some e
        → employee_status_eq e.status working ≡ is_some e.current_task_id
    pub at_work :
        (i j : ℕ) (e : Employee)
        → lookup i employees ≡ some e
        → e.current_task_id ≡ some j
        → IsRunningFor tasks j i

  abbrev pub Consistent : World → Type 0
  Consistent w = IsConsistent w.drawn w.tasks w.employees

  module _ {drawn : ℕ} {tasks : Dict Task} {employees : Dict Employee}
      (c : IsConsistent drawn tasks employees) where
    -- An id that is still to be drawn differs from the last one drawn, and from every id in use.
    fresh_ne : (k : ℕ) → drawn + 1 ≤ k → runtime.object_id drawn ≢ runtime.object_id k
    fresh_ne k h e = absurd (omega (arith, runtime.object_id_unique drawn k e))

    used_ne :
        {V : Type 0} (d : Dict V) (k i : ℕ) (v : V)
        → lookup i d ≡ some v
        → lookup (runtime.object_id k) d ≡ none
        → i ≢ runtime.object_id k
    used_ne d k i v used free e = cc

    -- An id is drawn for something else.
    pub draw-IsConsistent : IsConsistent (drawn + 1) tasks employees
    draw-IsConsistent = record {
      keyed_tasks = c.keyed_tasks;
      keyed_employees = c.keyed_employees;
      task_id = c.task_id;
      employee_id = c.employee_id;
      free_task = λ k h. c.free_task k (omega arith);
      free_employee = λ k h. c.free_employee k (omega arith);
      busy = c.busy;
      at_work = c.at_work;
    }

    -- A task is added under the id just drawn.
    pub add_task-IsConsistent :
        (t : Task)
        → t.id ≡ some (runtime.object_id drawn)
        → IsConsistent (drawn + 1) (insert (runtime.object_id drawn) t tasks) employees
    add_task-IsConsistent t named = record {
      keyed_tasks = insert-IsKeyed _ t tasks c.keyed_tasks;
      keyed_employees = c.keyed_employees;
      task_id = λ i u h. elim (insert_cases _ i t u tasks h) [
        | inl (at, same) ↦ cc
        | inr (_, old) ↦ c.task_id i u old
      ];
      employee_id = c.employee_id;
      free_task = λ k h. ground (
        arith,
        lookup-insert (runtime.object_id drawn) (runtime.object_id k) t tasks,
        fresh_ne k h,
        c.free_task k (omega arith),
      );
      free_employee = λ k h. c.free_employee k (omega arith);
      busy = c.busy;
      at_work = λ i j e h p.
          let r = c.at_work i j e h p in
          keeps_running tasks (runtime.object_id drawn) j i t
            (λ same. cc (r.found, c.free_task drawn (omega arith))) r;
    }

    -- A task is written over by one with its id and employee, which still runs if it is somebody's
    -- current task.
    pub set_task-IsConsistent :
        (j : ℕ) (t u : Task)
        → lookup j tasks ≡ some t
        → u.id ≡ some j
        → u.employee_id ≡ t.employee_id
        → ((i : ℕ) (e : Employee)
            → lookup i employees ≡ some e
            → e.current_task_id ≡ some j
            → u.status ≡ running)
        → IsConsistent drawn (insert j u tasks) employees
    set_task-IsConsistent j t u old named owned runs = record {
      keyed_tasks = insert-IsKeyed j u tasks c.keyed_tasks;
      keyed_employees = c.keyed_employees;
      task_id = λ i v h. elim (insert_cases j i u v tasks h) [
        | inl (at, same) ↦ cc
        | inr (_, kept) ↦ c.task_id i v kept
      ];
      employee_id = c.employee_id;
      free_task = λ k h. ground (
        arith,
        lookup-insert j (runtime.object_id k) u tasks,
        used_ne tasks k j t old (c.free_task k h),
        c.free_task k h,
      );
      free_employee = c.free_employee;
      busy = c.busy;
      at_work = λ i k e h p.
          let r = c.at_work i k e h p in
          keeps_running tasks j k i u (λ same. (cc (r.found, r.owned), runs i e h (cc))) r;
    }

    -- An employee is added under the id just drawn, with nothing to do.
    pub add_employee-IsConsistent :
        (e : Employee)
        → e.id ≡ some (runtime.object_id drawn)
        → e.current_task_id ≡ none
        → employee_status_eq e.status working ≡ false
        → IsConsistent (drawn + 1) tasks (insert (runtime.object_id drawn) e employees)
    add_employee-IsConsistent e named idle rests = record {
      keyed_tasks = c.keyed_tasks;
      keyed_employees = insert-IsKeyed _ e employees c.keyed_employees;
      task_id = c.task_id;
      employee_id = λ i u h. elim (insert_cases _ i e u employees h) [
        | inl (at, same) ↦ cc
        | inr (_, old) ↦ c.employee_id i u old
      ];
      free_task = λ k h. c.free_task k (omega arith);
      free_employee = λ k h. ground (
        arith,
        lookup-insert (runtime.object_id drawn) (runtime.object_id k) e employees,
        fresh_ne k h,
        c.free_employee k (omega arith),
      );
      busy = λ i u h. elim (insert_cases _ i e u employees h) [
        | inl (at, same) ↦ rw (← same) (rw (idle, rests))
        | inr (_, old) ↦ c.busy i u old
      ];
      at_work = λ i j u h p. elim (insert_cases _ i e u employees h) [
        | inl (at, same) ↦ absurd (ground arith)
        | inr (_, old) ↦ c.at_work i j u old p
      ];
    }

    -- An employee is written over by one with its id, busy exactly with a task that runs for it.
    pub set_employee-IsConsistent :
        (i : ℕ) (d e : Employee)
        → lookup i employees ≡ some d
        → e.id ≡ some i
        → employee_status_eq e.status working ≡ is_some e.current_task_id
        → ((j : ℕ) → e.current_task_id ≡ some j → IsRunningFor tasks j i)
        → IsConsistent drawn tasks (insert i e employees)
    set_employee-IsConsistent i d e old named agrees works = record {
      keyed_tasks = c.keyed_tasks;
      keyed_employees = insert-IsKeyed i e employees c.keyed_employees;
      task_id = c.task_id;
      employee_id = λ k u h. elim (insert_cases i k e u employees h) [
        | inl (at, same) ↦ cc
        | inr (_, kept) ↦ c.employee_id k u kept
      ];
      free_task = c.free_task;
      free_employee = λ k h. ground (
        arith,
        lookup-insert i (runtime.object_id k) e employees,
        used_ne employees k i d old (c.free_employee k h),
        c.free_employee k h,
      );
      busy = λ k u h. elim (insert_cases i k e u employees h) [
        | inl (at, same) ↦ rw (← same) agrees
        | inr (_, kept) ↦ c.busy k u kept
      ];
      at_work = λ k j u h p. elim (insert_cases i k e u employees h) [
        | inl (at, same) ↦ rw (← at) (works j (cc))
        | inr (_, kept) ↦ c.at_work k j u kept p
      ];
    }

    -- An employee goes.
    pub remove_employee-IsConsistent : (i : ℕ) → IsConsistent drawn tasks (remove i employees)
    remove_employee-IsConsistent i = record {
      keyed_tasks = c.keyed_tasks;
      keyed_employees = remove-IsKeyed i employees c.keyed_employees;
      task_id = c.task_id;
      employee_id = λ k u h. c.employee_id k u (remove_cases i k u employees h).1;
      free_task = c.free_task;
      free_employee = λ k h.
          ground (arith, lookup-remove i (runtime.object_id k) employees, c.free_employee k h);
      busy = λ k u h. c.busy k u (remove_cases i k u employees h).1;
      at_work = λ k j u h p. c.at_work k j u (remove_cases i k u employees h).1 p;
    }
