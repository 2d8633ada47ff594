-- ===== src/Lib.antt =====
-- Verification library of the TradeTrack MT5 server: the Python collector under app/collector that
-- reads trading accounts through MetaTrader 5 terminals, called slots, and reports them to an API.
--
-- How the program runs. The scheduler (`run_slots` in app/collector/scheduler.py) gives each slot a
-- worker and at most one running job. A worker talks to the API through `NodeClient.call`
-- (app/collector/node_agent.py), and runs each job in a child process. The child's gateway
-- (app/collector/gateway.py) checks again and again that it still reads the right account, chooses a
-- history window, narrows it until it is not too dense, and normalizes the native rows. Two durable
-- budgets bound how often a terminal is restarted. A clock observation compares two samples of ticks.
--
-- Files and the code that they model:
--   Contracts, Contracts/Window          app/collector/contracts.py, `HistoryWindow`
--   History, History/Plans, Backfill     app/collector/history.py, both planning functions
--   Normalization                        app/collector/normalization.py, the field checks, and the
--                                        records of app/collector/contracts.py
--   Normalization/Deals, Positions       `normalize_deals` and `normalize_positions`
--   Gateway/Shrink                       app/collector/gateway.py, the loop that narrows a window
--   Gateway/Identity                     app/collector/gateway.py, `identity` and the wait for the
--                                        caption
--   Gateway/Window, Collect              app/collector/gateway.py, `collect`, with the window that a
--                                        request asks for
--   Clock                                app/collector/clock_observation.py, `compare`
--   Scheduler                            app/collector/scheduler.py, `run_slots`
--   Gateway/Login                        app/collector/gateway.py, `login_failure`
--   NodeClient                           app/collector/node_agent.py, `NodeClient.call`
--   Agent, Agent/Config                  app/collector/node_agent.py, `InventoryAgent`
--   Agent/File                           app/collector/node_agent.py, `load_config`
--   Inventory/Caption, Processes         app/collector/windows_inventory.py, the caption of a read-only
--                                        session, the process at a path and the checks of the paths
--   Inventory/Servers                    app/collector/windows_inventory.py, `visible_servers`, the names
--                                        in the login dialog
--   Inventory/Reports                    app/collector/windows_inventory.py, `collect_inventory` with its
--                                        cache
--   Worker                               app/collector/worker.py, `SlotWorker.prepare_inventory`
--   Worker/Child, Worker/Jobs            app/collector/worker.py, `run_child` and `SlotWorker.once`
--   Recovery/Updates                     app/collector/update_recovery.py
--   Recovery/Terminals                   app/collector/server_preparation.py, the start, stop and close
--                                        of a terminal, and app/collector/quarantine_recovery.py
--   Catalogues                           app/collector/catalogue_sync.py, `choose_pair`
--   Telemetry                            app/collector/telemetry.py, `reserve_event` and `report`
--   Legacy, Legacy/Queue                 app/mt5_client.py, `fetch_deals`, and app/queue.py
--   RestartBudget                        app/collector/restart_budget.py, `reserve_restart`
--   UiRecovery                           app/collector/ui_recovery.py, `observe`, `reserve` and
--                                        `fence_ui_failure`
--   Throttle                             the contract that both budgets fulfil
--   Prelude                              shared tests, lists, dictionaries, results and integers
--
-- State and effects. A function that changes state takes it and returns it with its answer. What the
-- code gets from outside (clock readings, the API, the process table, MetaTrader's calls, a completed
-- future) is an argument. An exception is a value of `Error`, and a function that may raise returns a
-- `Result`. A JSON object or a native row is the part of it that the code reads. Datetimes are
-- microseconds since the epoch; clock readings are milliseconds, in NodeClient seconds.
--
-- Transcripts. Gateway/Collect, Worker, Recovery, Agent and Inventory act on the outside again and again, so they keep
-- a transcript of all calls with their answers, latest first, and the outside answers by the transcript
-- before a call. The inventory's report reaches the agent, and the agent's report the worker, as such
-- an answer.
-- Such code is an `Action` of Prelude/Actions: it takes a state and returns a result, or a raise, with
-- the state that it leaves.
--
-- Bounds and fuel. The loop of Gateway/Shrink has 32 rounds, as in the source. `NodeClient.call` has
-- three attempts, as in the source. The loops of the scheduler, of
-- the wait for the caption and of `login_failure` take a list of what their turns meet, of any length,
-- and answer `none` if it ends before they do. `run_child` takes the turns that find the child alive,
-- and ends with the child after the last of them.
--
-- Not modelled: the calls of the Windows API and of MetaTrader, file and process access, printing,
-- argument parsing and the HTTP transport, which are arguments here; opening and closing the login
-- dialog, the copy of catalogues between slots, `ServerPreparation.once`, the broker directory, the
-- routes of the older HTTP service and the scripts.
pub mod Prelude
pub mod Throttle
pub mod Agent
pub mod Catalogues
pub mod Clock
pub mod Contracts
pub mod Gateway
pub mod History
pub mod Inventory
pub mod Legacy
pub mod NodeClient
pub mod Normalization
pub mod Recovery
pub mod RestartBudget
pub mod Scheduler
pub mod Telemetry
pub mod UiRecovery
pub mod Worker
